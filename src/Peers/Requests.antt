-- ===== src/Peers/Requests.antt =====
-- The other requests of peer.go, and the seed managers of peermanager.go that `RequestAddPeer`
-- starts. A seed manager is the entry that it tracks.
use dfi.Prelude.{
  ℕ, zero, suc, ◌+◌, ◌*◌, ◌/◌, Bool, true, false, Option, List, [], ◌∷◌, length, take, drop,
  if◌then◌else◌,
}
use dfi.Prelude.Int.{ℤ}
use dfi.Prelude.Outcome.{Outcome, ok}
use dfi.Prelude.Action.{map_err, pure, lift, attempt, ◌>>=◌, ◌>>◌}
use dfi.Dht.Address.{Address, Bytes, equals, of_raw, string_or}
use dfi.Dht.Entry.{Entry}
use dfi.Data.Post.{Post}
use dfi.Proto.Capabilities.{is_empty}
use dfi.Proto.Client
use dfi.Proto.Client.{text_of}
use dfi.Proto.Bootstrap
use dfi.Util.Maps.{has, put}
use dfi.Local.Node.{query_entry, add_seeding, sign}
use dfi.Local.Node
use dfi.Peers.{
  Peer, PeerError, Setting, Pm, on_world, the_manager, open_stream, request, from_proto,
  from_bootstrap,
}
use dfi.Peers.Resolving.{on_local}

pub record SearchResult : Type 0 where
  pub posts : List (Option Post)
  pub source : Bytes

-- Whether an address is among the seeds.
abbrev pub among : Address → List Bytes → Bool
among a [] = false
among a (raw ∷ rest) = if equals (of_raw raw) a then true else among a rest

module _ {W S D : Type 0} (setting : Setting W S D) where
  open setting use {world, outside, party, packing}

  -- `Search` of a peer: the posts with the text of its address.
  unfoldable pub search : Peer → Bytes → ℤ → Pm setting SearchResult
  unfolding open_stream
  search p text page = do
    posts ← request setting p (Client.search party packing text page)
    source ← lift (text_of (string_or outside.env.codec p.address []))
    pure (record { posts = posts; source = source })

  unfoldable pub recent : Peer → ℤ → Pm setting (List (Option Post))
  unfolding open_stream
  recent p page = request setting p (Client.recent party packing page)

  unfoldable pub popular : Peer → ℤ → Pm setting (List (Option Post))
  unfolding open_stream
  popular p page = request setting p (Client.popular party packing page)

  -- The public address is set where it was empty, and the entry is signed, before the stream is
  -- opened.
  unfoldable pub announce : Peer → Pm setting (Unit {0})
  unfolding open_stream sign
  announce p = do
    on_world setting (world.ping p)
    pm ← the_manager setting
    ip ←
        if is_empty pm.lp.entry.public_address
        then on_world setting (λ w. let (ip, w') = world.external_ip w in (ok ip, w'))
        else pure pm.lp.entry.public_address
    on_local setting (do
      lp ← Node.get_peer outside
      Node.set_entry outside (record lp.entry { public_address = ip })
      sign outside)
    conn ← open_stream setting p
    signed ← the_manager setting
    lift (map_err from_proto (Client.announce party packing signed.lp.entry conn).0)

  -- `Bootstrap` of a peer, with the node's own table.
  unfoldable pub bootstrap : Peer → Pm setting (Unit {0})
  unfolding open_stream
  bootstrap p = do
    on_world setting (world.ping p)
    conn ← open_stream setting p
    λ pm.
        let (o, (db, _)) =
          Bootstrap.bootstrap outside.env party packing pm.lp.dht.addr (pm.lp.dht, conn) in
        (map_err from_bootstrap o, record pm { lp = record pm.lp { dht = db } })

  -- `NewSeedManager`
  abbrev pub new_seed_manager : Address → Pm setting Entry
  new_seed_manager track = on_local setting (query_entry outside track)

  abbrev pub set_manager : Address → Entry → Pm setting (Unit {0})
  set_manager addr e pm = (ok tt, record pm { seed_managers = put addr.raw e pm.seed_managers })

  -- `AddSeedManager`
  unfoldable pub add_seed_manager : Address → Pm setting (Unit {0})
  unfolding query_entry
  add_seed_manager addr = do
    pm ← the_manager setting
    if has addr.raw pm.seed_managers
        then pure tt
        else (do e ← new_seed_manager addr; set_manager addr e)

  -- The loop of `LoadSeeds`, where an error is only logged.
  unfoldable pub load_from : ℕ → ℕ → Bytes → Pm setting (Unit {0})
  unfolding add_seed_manager
  load_from zero i file = pure tt
  load_from (suc rounds) i file =
      attempt (add_seed_manager (of_raw (take 20 (drop (i * 20) file)))) pure (λ _. pure tt)
      >> load_from rounds (i + 1) file

  -- `LoadSeeds`, with what reading the file comes to.
  unfoldable pub load_seeds : Outcome PeerError Bytes → Pm setting (Unit {0})
  unfolding load_from
  load_seeds read = do file ← lift read; load_from (length file / 20) 0 file

  -- `RequestAddPeer`. The entry's seeds are compared with the entry's own address.
  unfoldable pub request_add_peer : Peer → Entry → Pm setting (Unit {0})
  unfolding open_stream add_seed_manager
  request_add_peer p entry = do
    request setting p (Client.request_add_peer party packing entry.address)
    add_seed_manager entry.address
    if among entry.address entry.seeds
        then pure tt
        else on_local setting (add_seeding outside entry)
