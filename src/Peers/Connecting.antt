-- ===== src/Peers/Connecting.antt =====
-- `SetPeer` and `ConnectPeerDirect`: a new peer comes into the maps, and others leave them.
use dfi.Prelude.{ℕ, zero, suc, true, false, Option, none, some, [], ◌∷◌, length, leb, if◌then◌else◌}
use dfi.Prelude.Int.{ℤ}
use dfi.Prelude.Outcome.{ok, err}
use dfi.Prelude.Action.{within, pure, lift, attempt, ◌>>=◌, ◌>>◌}
use dfi.Dht.Address.{Address, Bytes}
use dfi.Dht.Entry.{Entry}
use dfi.Dht.NetDb.Writing.{insert}
use dfi.Data.Post.{later}
use dfi.Util.Maps.{Map, get, has, put}
use dfi.Local.Node.{on_dht}
use dfi.Peers.{
  Peer, Setting, PeerManager, Pm, on_world, tell, clock, the_manager, see, entry_of, drop_peer,
  unreachable, from_local,
}

-- The loop over the times. `oldestValue` stays what it was, so the last key with an earlier time
-- than now is taken.
unfoldable pub oldest : ℤ → Map ℤ → Bytes → Bytes
oldest now [] key = key
oldest now ((k, t) ∷ m) key = oldest now m (if later now t then k else key)

module _ {W S D : Type 0} (setting : Setting W S D) where
  open setting use {world, outside}

  -- The peer that was picked is terminated and removed before the loop goes on; without one it
  -- breaks.
  abbrev pub drop_found : Option Peer → Pm setting (Unit {0}) → Pm setting (Unit {0})
  drop_found none next = pure tt
  drop_found (some q) next = do
    tell setting (world.terminate q)
    drop_peer setting q.address.raw
    next

  -- The end of `SetPeer`, with its `break`.
  unfoldable pub evict : ℕ → Pm setting (Unit {0})
  unfolding oldest
  evict zero = pure tt
  evict (suc rounds) = do
    pm ← the_manager setting
    if leb (length pm.peers) world.max_peers then pure tt else do
      now ← clock setting
      drop_found (get (oldest now pm.seen []) pm.peers) (evict rounds)

  abbrev pub keep_public : Bytes → Address → Pm setting (Unit {0})
  keep_public text addr pm = (ok tt, record pm { public_to_dfi = put text addr pm.public_to_dfi })

  abbrev pub keep_peer : Peer → Pm setting (Unit {0})
  keep_peer p pm = (ok tt, record pm { peers = put p.address.raw p pm.peers })

  abbrev pub evict_all : Pm setting (Unit {0})
  evict_all pm = evict (length pm.peers) pm

  -- `SetPeer`, which gives the peer as it is afterwards.
  unfoldable pub set_peer : Peer → Pm setting Peer
  unfolding evict
  set_peer p = do
    pm ← the_manager setting
    if has p.address.raw pm.peers
        then pure p
        else attempt (entry_of setting p)
            (λ (e, q). do
              keep_public e.public_address q.address
              let followed = record q { followed = true }
              keep_peer followed
              see setting q.address.raw
              evict_all
              pure followed)
            (λ _. pure p)

  -- An `Insert` whose outcome is ignored.
  abbrev pub insert_ignored : Entry → Pm setting (Unit {0})
  insert_ignored e =
      attempt
        (within (λ pm. pm.lp) (λ lp pm. record pm { lp = lp }) from_local
          (on_dht outside (insert outside.env e)))
        (λ _. pure tt) (λ _. pure tt)

  -- `Connect` of a new peer
  unfoldable pub connect : Bytes → Pm setting Peer
  connect addr = do
    e ← on_world setting (world.dial addr)
    insert_ignored e
    pure (record { address = e.address; entry = none; followed = false })

  -- A peer that is connected under a public address.
  abbrev pub connected : Bytes → PeerManager W S D → Option Peer
  connected addr pm = elim (get addr pm.public_to_dfi) [ none ↦ none | some a ↦ get a.raw pm.peers ]

  unfoldable pub connect_peer_direct : Bytes → Pm setting Peer
  unfolding connect set_peer
  connect_peer_direct addr = do
    pm ← the_manager setting
    elim (connected addr pm) [
      | some p ↦ pure p
      | none ↦
          attempt (connect addr) (λ p. do tell setting (world.connect_client p); set_peer p)
            (λ _. lift (err unreachable))
    ]
