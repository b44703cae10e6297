-- ===== src/Peers/Stable.antt =====
-- What every call of a manager keeps: what does not depend on the world and on what was seen, and is
-- kept when a peer is put under its own address or removed, and when the local peer changes without
-- harm to its table.
use dfi.Prelude.{ℕ, zero, suc, true, false, Option, none, some, [], not, length, leb}
use dfi.Prelude.Int.{ℤ}
use dfi.Prelude.Outcome.{err}
use dfi.Prelude.Action.{
  Action, attempt, within, Keeps, Keeps-pure, Keeps-lift, Keeps-bind, Keeps-attempt, Keeps-if,
  map_err, pure, lift, ◌>>◌,
}
use dfi.Dht.Address.{Address, Bytes, equals}
use dfi.Dht.Entry.{Entry}
use dfi.Dht.NetDb.Writing.{insert}
use dfi.Local.Node.{LocalPeer, Node, on_dht}
use dfi.Local.Kept.{HasTable, insert-Keeps}
use dfi.Proto.Message.{Net}
use dfi.Proto.Client
use dfi.Util.Maps.{Map, get, has, put, remove}
use dfi.Peers.{
  Peer, PeerError, Setting, PeerManager, Pm, on_world, tell, clock, the_manager, see, open_stream,
  request, query, get_entry, entry_of, drop_peer, from_proto, from_local, wrong_entry, unreachable,
}
use dfi.Peers.Connecting.{
  oldest, evict, evict_all, drop_found, set_peer, keep_peer, keep_public, insert_ignored, connect,
  connected, connect_peer_direct,
}

-- Properties of a manager that its calls keep.
pub record IsStable {W S D : Type 0} (P : PeerManager W S D → Type 0) : Type 0 where
  pub world_changes : (pm : PeerManager W S D) (w : W) → P pm → P (record pm { world = w })
  pub is_seen : (pm : PeerManager W S D) (m : Map ℤ) → P pm → P (record pm { seen = m })
  pub is_public :
      (pm : PeerManager W S D) (m : Map Address) → P pm → P (record pm { public_to_dfi = m })
  pub is_managed :
      (pm : PeerManager W S D) (m : Map Entry) → P pm → P (record pm { seed_managers = m })
  pub is_put :
      (pm : PeerManager W S D) (p : Peer)
      → P pm
      → P (record pm { peers = put p.address.raw p pm.peers })
  pub is_dropped :
      (pm : PeerManager W S D) (key : Bytes) → P pm → P (record pm { peers = remove key pm.peers })
  pub local_changes :
      (pm : PeerManager W S D) (lp : LocalPeer S D)
      → (HasTable pm.lp → HasTable lp)
      → P pm
      → P (record pm { lp = lp })

module _ {W S D : Type 0} (setting : Setting W S D) (P : PeerManager W S D → Type 0)
    (stable : IsStable P) where
  open setting use {world, outside, party, packing}

  pub on_world-Keeps : {A : Type 0} (m : Action W PeerError A) → Keeps P (on_world setting m)
  on_world-Keeps m = record { at = λ pm h. stable.world_changes pm (m pm.world).1 h }

  pub the_manager-Keeps : Keeps P (the_manager setting)
  the_manager-Keeps = record { at = λ pm h. h }

  tell-Keeps : (f : W → W) → Keeps P (tell setting f)
  tell-Keeps f = record { at = λ pm h. stable.world_changes pm (f pm.world) h }

  clock-Keeps : Keeps P (clock setting)
  clock-Keeps = record { at = λ pm h. stable.world_changes pm (world.now pm.world).1 h }

  see-Keeps : (key : Bytes) → Keeps P (see setting key)
  see-Keeps key = record {
    at = λ pm h.
        let (t, w) = world.now pm.world in
        stable.is_seen (record pm { world = w }) (put key t pm.seen) (stable.world_changes pm w h);
  }

  pub open_stream-Keeps : (p : Peer) → Keeps P (open_stream setting p)
  unfolding open_stream
  open_stream-Keeps p = Keeps-bind (on_world-Keeps (world.ping p)) λ _.
      Keeps-bind (Keeps-if p.followed (see-Keeps p.address.raw) (Keeps-pure tt))
        λ _. on_world-Keeps (world.open_stream p)

  pub request-Keeps : {A : Type 0} (p : Peer) (m : Net A) → Keeps P (request setting p m)
  request-Keeps p m =
      Keeps-bind (on_world-Keeps (world.ping p))
        λ _. Keeps-bind (open_stream-Keeps p) λ conn. Keeps-lift (map_err from_proto (m conn).0)

  get_entry-Keeps : (p : Peer) → Keeps P (get_entry setting p)
  unfolding get_entry query
  get_entry-Keeps p = Keeps-bind (on_world-Keeps (world.ping p)) λ _.
      Keeps-bind (request-Keeps p (Client.query party packing p.address)) λ e.
        Keeps-if (not (equals e.address p.address)) (Keeps-lift (err wrong_entry))
          (Keeps-pure (e, record p { entry = some e }))

  pub entry_of-Keeps : (p : Peer) → Keeps P (entry_of setting p)
  unfolding entry_of
  entry_of-Keeps p =
      elim p.entry
        as (λ o. Keeps P (elim o as (λ _. Pm setting (Entry × Peer)) [
          | some e ↦ pure (e, p)
          | none ↦ get_entry setting p
        ])) [ some e ↦ Keeps-pure (e, p) | none ↦ get_entry-Keeps p ]

  drop_peer-Keeps : (key : Bytes) → Keeps P (drop_peer setting key)
  drop_peer-Keeps key = record {
    at = λ pm h.
        stable.is_seen (record pm { peers = remove key pm.peers }) (remove key pm.seen)
          (stable.is_dropped pm key h);
  }

  drop_found-Keeps :
      (o : Option Peer) (next : Pm setting (Unit {0}))
      → Keeps P next
      → Keeps P (drop_found setting o next)
  drop_found-Keeps none next k = Keeps-pure tt
  drop_found-Keeps (some q) next k =
      Keeps-bind (tell-Keeps (world.terminate q))
        λ _. Keeps-bind (drop_peer-Keeps q.address.raw) λ _. k

  evict-Keeps : (rounds : ℕ) → Keeps P (evict setting rounds)
  unfolding evict
  evict-Keeps zero = Keeps-pure tt
  evict-Keeps (suc rounds) = Keeps-bind the_manager-Keeps λ pm.
      Keeps-if (leb (length pm.peers) world.max_peers) (Keeps-pure tt) (
        Keeps-bind clock-Keeps
          λ now. drop_found-Keeps (get (oldest now pm.seen []) pm.peers) _ (evict-Keeps rounds))

  pub set_peer-Keeps : (p : Peer) → Keeps P (set_peer setting p)
  unfolding set_peer
  set_peer-Keeps p = Keeps-bind the_manager-Keeps λ pm.
      Keeps-if (has p.address.raw pm.peers) (Keeps-pure p) (
        Keeps-attempt (entry_of-Keeps p)
          (λ (e, q).
            let followed = record q { followed = true } in
            Keeps-bind {m = keep_public setting e.public_address q.address}
              (record {
                at =
                    λ pm h. stable.is_public pm (put e.public_address q.address pm.public_to_dfi) h;
              })
              λ _.
                Keeps-bind {m = keep_peer setting followed}
                  (record { at = λ pm h. stable.is_put pm followed h })
                  λ _. Keeps-bind (see-Keeps q.address.raw) λ _.
                    Keeps-bind {m = evict_all setting}
                      (record { at = λ pm h. (evict-Keeps (length pm.peers)).at pm h })
                      λ _. Keeps-pure followed)
          (λ _. Keeps-pure p))

  pub on_local-Keeps :
      {A : Type 0} (m : Node outside A)
      → Keeps HasTable m
      → Keeps P (within (λ pm. pm.lp) (λ lp pm. record pm { lp = lp }) from_local m)
  on_local-Keeps m k = record { at = λ pm h. stable.local_changes pm (m pm.lp).1 (k.at pm.lp) h }

  pub insert_ignored-Keeps : (e : Entry) → Keeps P (insert_ignored setting e)
  insert_ignored-Keeps e =
      Keeps-attempt
        (on_local-Keeps (on_dht outside (insert outside.env e)) (insert-Keeps outside e))
        (λ _. Keeps-pure tt) (λ _. Keeps-pure tt)

  connect-Keeps : (addr : Bytes) → Keeps P (connect setting addr)
  unfolding connect
  connect-Keeps addr = Keeps-bind (on_world-Keeps (world.dial addr)) λ e.
      Keeps-bind (insert_ignored-Keeps e)
        λ _. Keeps-pure (record { address = e.address; entry = none; followed = false })

  or_direct-Keeps :
      (o : Option Peer) (addr : Bytes)
      → Keeps P (elim o as (λ _. Pm setting Peer) [
        | some p ↦ pure p
        | none ↦
            attempt
              (connect setting addr)
              (λ p. do tell setting (world.connect_client p); set_peer setting p)
              (λ _. lift (err unreachable))
      ])
  or_direct-Keeps (some p) addr = Keeps-pure p
  or_direct-Keeps none addr =
      Keeps-attempt (connect-Keeps addr)
        (λ p. Keeps-bind (tell-Keeps (world.connect_client p)) λ _. set_peer-Keeps p)
        (λ _. Keeps-lift (err unreachable))

  pub connect_peer_direct-Keeps : (addr : Bytes) → Keeps P (connect_peer_direct setting addr)
  unfolding connect_peer_direct
  connect_peer_direct-Keeps addr =
      Keeps-bind the_manager-Keeps λ pm. or_direct-Keeps (connected setting addr pm) addr
