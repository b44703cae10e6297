-- ===== src/Peers/Requested.antt =====
-- What the requests of a peer keep, and the seed managers that they start.
use dfi.Prelude.{Option, none, some, []}
use dfi.Prelude.Int.{ℤ}
use dfi.Prelude.Outcome.{ok, err}
use dfi.Prelude.Action.{
  Keeps, Keeps-pure, Keeps-lift, Keeps-bind, Keeps-if, map_err, pure, lift, ◌>>◌, ◌>>=◌,
}
use dfi.Dht.Address.{Address, Bytes, equals, string_or}
use dfi.Dht.Entry.{Entry}
use dfi.Dht.NetDb.Reading
use dfi.Dht.NetDb.Invariant.{query-IsDb}
use dfi.Local.Kept.{
  HasTable, on_dht-Keeps, set_entry-Keeps, sign-Keeps, get_peer-Keeps, add_seeding-Keeps,
}
use dfi.Local.Node
use dfi.Local.Node.{Node, LocalPeer, on_dht, no_entry, query_entry, sign, set_entry, add_seeding}
use dfi.Proto.Capabilities.{is_empty}
use dfi.Proto.Client
use dfi.Proto.Client.{text_of}
use dfi.Proto.Bootstrap.{bootstrap-IsDb}
use dfi.Util.Maps.{has, put}
use dfi.Peers.{Peer, Setting, PeerManager, from_proto}
use dfi.Peers.Resolving.{on_local}
use dfi.Peers.Requests
use dfi.Peers.Requests.{among, add_seed_manager, set_manager, new_seed_manager, request_add_peer}
use dfi.Peers.Stable.{
  IsStable, on_world-Keeps, the_manager-Keeps, request-Keeps, open_stream-Keeps, on_local-Keeps,
}

module _ {W S D : Type 0} (setting : Setting W S D) (P : PeerManager W S D → Type 0)
    (stable : IsStable P) where
  open setting use {world, outside, party, packing}

  query_entry-Keeps : (a : Address) → Keeps HasTable (query_entry outside a)
  unfolding query_entry
  query_entry-Keeps a = Keeps-bind (get_peer-Keeps outside) λ lp.
      Keeps-if (equals a lp.address) (Keeps-pure lp.entry) (
        Keeps-bind (on_dht-Keeps outside (Reading.query outside.env a) (query-IsDb outside.env a))
          λ (kv, _). found_entry kv)
    where
      found_entry :
          (kv : Option Entry)
          → Keeps HasTable (elim kv as (λ _. Node outside Entry) [
            | none ↦ lift (err no_entry)
            | some e ↦ pure e
          ])
      found_entry none = Keeps-lift (err no_entry)
      found_entry (some e) = Keeps-pure e

  pub entry_queried-Keeps : (a : Address) → Keeps P (on_local setting (query_entry outside a))
  entry_queried-Keeps a =
      on_local-Keeps setting P stable (query_entry outside a) (query_entry-Keeps a)

  pub search-Keeps :
      (p : Peer) (text : Bytes) (page : ℤ) → Keeps P (Requests.search setting p text page)
  unfolding Requests.search
  search-Keeps p text page =
      Keeps-bind (request-Keeps setting P stable p (Client.search party packing text page)) λ posts.
        Keeps-bind (Keeps-lift (text_of (string_or outside.env.codec p.address [])))
          λ source. Keeps-pure (record { posts = posts; source = source })

  pub recent-Keeps : (p : Peer) (page : ℤ) → Keeps P (Requests.recent setting p page)
  unfolding Requests.recent
  recent-Keeps p page = request-Keeps setting P stable p (Client.recent party packing page)

  pub popular-Keeps : (p : Peer) (page : ℤ) → Keeps P (Requests.popular setting p page)
  unfolding Requests.popular
  popular-Keeps p page = request-Keeps setting P stable p (Client.popular party packing page)

  signed_again-Keeps :
      (ip : Bytes)
      → Keeps HasTable (do
        lp ← Node.get_peer outside
        set_entry outside (record lp.entry { public_address = ip })
        sign outside)
  signed_again-Keeps ip = Keeps-bind (get_peer-Keeps outside) λ lp.
      Keeps-bind (set_entry-Keeps outside (record lp.entry { public_address = ip }))
        λ _. sign-Keeps outside

  pub announce-Keeps : (p : Peer) → Keeps P (Requests.announce setting p)
  unfolding Requests.announce
  announce-Keeps p = Keeps-bind (on_world-Keeps setting P stable (world.ping p)) λ _.
      Keeps-bind (the_manager-Keeps setting P stable) λ pm.
        Keeps-bind
          (Keeps-if (is_empty pm.lp.entry.public_address)
            (on_world-Keeps setting P stable
              (λ w. let (ip, w') = world.external_ip w in (ok ip, w')))
            (Keeps-pure pm.lp.entry.public_address))
          λ ip. Keeps-bind (on_local-Keeps setting P stable _ (signed_again-Keeps ip)) λ _.
            Keeps-bind (open_stream-Keeps setting P stable p) λ conn.
              Keeps-bind (the_manager-Keeps setting P stable) λ signed.
                Keeps-lift
                  (map_err from_proto (Client.announce party packing signed.lp.entry conn).0)

  pub bootstrap-Keeps : (p : Peer) → Keeps P (Requests.bootstrap setting p)
  unfolding Requests.bootstrap
  bootstrap-Keeps p = Keeps-bind (on_world-Keeps setting P stable (world.ping p)) λ _.
      Keeps-bind (open_stream-Keeps setting P stable p) λ conn. record {
        at = λ pm h.
            stable.local_changes pm _
              (λ table.
                (bootstrap-IsDb outside.env party packing pm.lp.dht.addr pm.lp.dht conn table).0)
              h;
      }

  set_manager-Keeps : (a : Address) (e : Entry) → Keeps P (set_manager setting a e)
  set_manager-Keeps a e = record {
    at = λ pm h. stable.is_managed pm (put a.raw e pm.seed_managers) h;
  }

  add_seed_manager-Keeps : (a : Address) → Keeps P (add_seed_manager setting a)
  unfolding add_seed_manager
  add_seed_manager-Keeps a = Keeps-bind (the_manager-Keeps setting P stable) λ pm.
      Keeps-if (has a.raw pm.seed_managers) (Keeps-pure tt)
        (Keeps-bind (entry_queried-Keeps a) (set_manager-Keeps a))

  pub request_add_peer-Keeps : (p : Peer) (e : Entry) → Keeps P (request_add_peer setting p e)
  unfolding request_add_peer
  request_add_peer-Keeps p e =
      Keeps-bind
        (request-Keeps setting P stable p (Client.request_add_peer party packing e.address))
        λ _. Keeps-bind (add_seed_manager-Keeps e.address) λ _.
          Keeps-if (among e.address e.seeds) (Keeps-pure tt)
            (on_local-Keeps setting P stable (add_seeding outside e) (add_seeding-Keeps outside e))
