-- ===== src/Peers/Reaching.antt =====
-- What the calls that resolve addresses, connect to them and ask peers keep.
use dfi.Prelude.{ℕ, zero, suc, Option, none, some, List, [], ◌∷◌}
use dfi.Prelude.Outcome.{err, panic}
use dfi.Prelude.Action.{Keeps, Keeps-pure, Keeps-lift, Keeps-bind, Keeps-attempt, Keeps-if}
use dfi.Dht.Address.{Address, equals}
use dfi.Dht.Entry.{Entry}
use dfi.Dht.NetDb.Reading
use dfi.Dht.NetDb.Closest
use dfi.Dht.NetDb.Invariant.{query-IsDb, find_closest-IsDb}
use dfi.Local.Kept.{on_dht-Keeps}
use dfi.Proto.Client
use dfi.Peers.{
  Peer, PeerError, Setting, PeerManager, Pm, query, find_closest, get_peer, recursion_limit,
  is_self, unresolved,
}
use dfi.Peers.Connecting.{insert_ignored}
use dfi.Peers.Resolving.{
  Resolve, on_manager, spend, or_connect, peer_for, step_from, resolve_step, next_or_limit,
  take_if_equal, resolve_loop, query_local, none_of_no_rows, or_resolve, resolve, peer_or_direct,
  connect_peer, dial_text, the_depth,
}
use dfi.Peers.Stable.{
  IsStable, the_manager-Keeps, request-Keeps, connect_peer_direct-Keeps, insert_ignored-Keeps,
  on_local-Keeps,
}

module _ {W S D : Type 0} (setting : Setting W S D) (P : PeerManager W S D → Type 0)
    (stable : IsStable P) where
  open setting use {outside, party, packing}

  abbrev Counted : ℕ × PeerManager W S D → Type 0
  Counted s = P s.1

  on_manager-Keeps :
      {A : Type 0} (m : Pm setting A) → Keeps P m → Keeps Counted (on_manager setting m)
  on_manager-Keeps m k = record { at = λ s h. k.at s.1 h }

  spend-Keeps : Keeps Counted (spend setting)
  spend-Keeps = record { at = spent }
    where
      spent : (s : ℕ × PeerManager W S D) → P s.1 → P (spend setting s).1.1
      spent (zero, pm) h = h
      spent (suc d, pm) h = h

  pub get_peer-Keeps : (a : Address) → Keeps P (get_peer setting a)
  get_peer-Keeps a = record { at = λ pm h. h }

  query-Keeps : (p : Peer) (a : Address) → Keeps P (query setting p a)
  unfolding query
  query-Keeps p a = request-Keeps setting P stable p (Client.query party packing a)

  find_closest-Keeps : (p : Peer) (a : Address) → Keeps P (find_closest setting p a)
  unfolding find_closest
  find_closest-Keeps p a = request-Keeps setting P stable p (Client.find_closest party packing a)

  or_connect-Keeps : (e : Entry) (o : Option Peer) → Keeps P (or_connect setting e o)
  or_connect-Keeps e (some p) = Keeps-pure p
  or_connect-Keeps e none = connect_peer_direct-Keeps setting P stable (dial_text e)

  peer_for-Keeps : (e : Entry) → Keeps P (peer_for setting e)
  peer_for-Keeps e = Keeps-bind (get_peer-Keeps e.address) (or_connect-Keeps e)

  -- `Query` returns an entry where it returns no error.
  step_from-Keeps :
      (step : Option Entry → Resolve setting (Option Entry)) (a : Address) (i : Option Entry)
      → Keeps Counted (step_from setting step a i)
  step_from-Keeps step a none = Keeps-lift panic
  step_from-Keeps step a (some e) =
      Keeps-bind (on_manager-Keeps (peer_for setting e) (peer_for-Keeps e)) λ p.
        Keeps-bind (on_manager-Keeps (query setting p a) (query-Keeps p a))
          λ kv. Keeps-pure (some kv)

  resolve_step-Keeps :
      (rounds : ℕ) (a : Address) (i : Option Entry)
      → Keeps Counted (resolve_step setting rounds a i)
  unfolding resolve_step
  resolve_step-Keeps zero a i = Keeps-lift (err recursion_limit)
  resolve_step-Keeps (suc rounds) a i =
      Keeps-bind spend-Keeps λ _. step_from-Keeps (resolve_step setting rounds a) a i

  next_or_limit-Keeps :
      (next : Resolve setting Entry) (e : PeerError)
      → Keeps Counted next
      → Keeps Counted (next_or_limit setting next e)
  next_or_limit-Keeps next e k = elim e as (λ x. Keeps Counted (next_or_limit setting next x)) [
    | recursion_limit ↦ Keeps-lift (err recursion_limit)
    | _ ↦ k
  ]

  take_if_equal-Keeps :
      (a : Address) (next : Resolve setting Entry) (o : Option Entry)
      → Keeps Counted next
      → Keeps Counted (take_if_equal setting a next o)
  take_if_equal-Keeps a next none k = k
  take_if_equal-Keeps a next (some e) k =
      Keeps-if (equals e.address a)
        (Keeps-bind
          (on_manager-Keeps (insert_ignored setting e) (insert_ignored-Keeps setting P stable e))
          λ _. Keeps-pure e)
        k

  resolve_loop-Keeps :
      (a : Address) (l : List (Option Entry)) → Keeps Counted (resolve_loop setting a l)
  unfolding resolve_loop
  resolve_loop-Keeps a [] = Keeps-lift (err unresolved)
  resolve_loop-Keeps a (i ∷ rest) =
      let later = resolve_loop-Keeps a rest in
      Keeps-attempt (resolve_step-Keeps 7 a i)
        (λ o. take_if_equal-Keeps a (resolve_loop setting a rest) o later)
        (λ e. next_or_limit-Keeps (resolve_loop setting a rest) e later)

  or_resolve-Keeps : (a : Address) (o : Option Entry) → Keeps P (or_resolve setting a o)
  or_resolve-Keeps a (some e) = Keeps-pure e
  or_resolve-Keeps a none =
      Keeps-bind
        (on_local-Keeps setting P stable _ (
          on_dht-Keeps outside (Closest.find_closest outside.env a)
            (record { at = find_closest-IsDb outside.env a })))
        λ closest. record { at = λ pm h. (resolve_loop-Keeps a closest).at (the_depth, pm) h }

  query_local-Keeps : (a : Address) → Keeps P (query_local setting a)
  query_local-Keeps a = on_local-Keeps setting P stable _ (
      Keeps-attempt (on_dht-Keeps outside (Reading.query outside.env a) (query-IsDb outside.env a))
        Keeps-pure λ e. Keeps-lift (none_of_no_rows setting e))

  pub resolve-Keeps : (a : Address) → Keeps P (resolve setting a)
  unfolding resolve
  resolve-Keeps a = Keeps-bind (the_manager-Keeps setting P stable) λ pm.
      Keeps-if (equals a pm.lp.address) (Keeps-pure pm.lp.entry)
        (Keeps-bind (query_local-Keeps a) λ t. or_resolve-Keeps a t.0)

  peer_or_direct-Keeps : (e : Entry) (o : Option Peer) → Keeps P (peer_or_direct setting e o)
  peer_or_direct-Keeps e (some p) = Keeps-pure (p, e)
  peer_or_direct-Keeps e none =
      Keeps-bind (connect_peer_direct-Keeps setting P stable (dial_text e)) λ p. Keeps-pure (p, e)

  pub connect_peer-Keeps : (a : Address) → Keeps P (connect_peer setting a)
  unfolding connect_peer
  connect_peer-Keeps a = Keeps-bind (resolve-Keeps a) λ e.
      Keeps-bind (the_manager-Keeps setting P stable) λ pm.
        Keeps-if (equals e.address pm.lp.address) (Keeps-lift (err is_self))
          (Keeps-bind (get_peer-Keeps e.address) (peer_or_direct-Keeps e))
