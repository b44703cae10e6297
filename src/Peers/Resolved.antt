-- ===== src/Peers/Resolved.antt =====
-- What `Resolve` returns.
use dfi.Prelude.{
  ℕ, suc, ◌≡◌, refl, subst, true, Option, none, some, List, [], ◌∷◌, ◌⊎◌, inl, inr, Bool-cases,
  if◌then◌else◌,
}
use dfi.Prelude.Int.{ℤ}
use dfi.Prelude.Outcome.{Outcome, ok, err, panic}
use dfi.Prelude.Action.{map_err, pure, lift, recover, continue}
use dfi.Prelude.Returns.{Returns, OfValue, Returns-pure, Returns-after, Returns-bind}
use dfi.Dht.Address.{Address, equals}
use dfi.Dht.Entry.{Entry, verify}
use dfi.Dht.NetDb.{DbError, address_error, entry_error, sql_error, no_rows, failed}
use dfi.Dht.NetDb.Reading
use dfi.Dht.NetDb.Closest
use dfi.Local.Node.{LocalPeer, on_dht, db_error}
use dfi.Peers.{
  Peer, PeerError, Setting, PeerManager, Pm, on_world, open_stream, query, recursion_limit,
  from_proto, from_local, see,
}
use dfi.Proto.Message.{ProtoError, Conn}
use dfi.Proto.Client
use dfi.Proto.Requests.{query-Answered}
use dfi.Peers.Connecting.{insert_ignored}
use dfi.Peers.Resolving.{
  Resolve, on_manager, spend, peer_for, resolve_step, take_if_equal, next_or_limit, resolve_loop,
  or_resolve, resolve, the_depth, on_local, none_of_no_rows,
}

module _ {W S D : Type 0} (setting : Setting W S D) where
  open setting use {outside, world, party, packing}

  -- The peer sent the entry when it was asked for the address, on a stream that was opened to it, and
  -- `Verify` accepts it.
  abbrev pub GivenBy : Peer → Address → Entry → Type 0
  GivenBy p addr e =
      (w : W) × (conn : Conn) × ((world.open_stream p w).0 ≡ ok conn)
      × ((Client.query party packing addr conn).0 ≡ ok e)
      × (verify party.codec party.sigs e ≡ ok tt)

  abbrev pub Given : Address → Entry → Type 0
  Given addr e = (p : Peer) × GivenBy p addr e

  -- An entry that a peer sent for the address, and that is of that address.
  abbrev pub Sent : Address → Entry → Type 0
  Sent addr e = Given addr e × (equals e.address addr ≡ true)

  abbrev SomeVerified : Address → Option Entry → Type 0
  SomeVerified addr none = Unit
  SomeVerified addr (some e) = Given addr e

  -- The stream on which a request is made.
  abbrev Opens : Peer → Conn → Type 0
  Opens p conn = (w : W) × ((world.open_stream p w).0 ≡ ok conn)

  opened_by_world : (p : Peer) → Returns (Opens p) (on_world setting (world.open_stream p))
  opened_by_world p = record { at = λ pm. at_world pm.world (world.open_stream p pm.world).0 refl }
    where
      at_world :
          (w : W) (o : Outcome PeerError Conn)
          → (world.open_stream p w).0 ≡ o
          → OfValue (Opens p) (map_err (λ (e : PeerError). e) o)
      at_world w (ok conn) h = (w, h)
      at_world w (err x) h = tt
      at_world w panic h = tt

  open_stream-Opens : (p : Peer) → Returns (Opens p) (open_stream setting p)
  unfolding open_stream
  open_stream-Opens p = Returns-after (on_world setting (world.ping p)) λ _.
      Returns-after (if p.followed then see setting p.address.raw else pure tt)
        λ _. opened_by_world p

  pub answered : (p : Peer) (addr : Address) → Returns (GivenBy p addr) (query setting p addr)
  unfolding query
  answered p addr = Returns-after (on_world setting (world.ping p)) λ _.
      Returns-bind (open_stream-Opens p) λ conn (w, opens). record {
        at = λ pm.
            checked_answer (Client.query party packing addr conn).0
              λ e h. (w, conn, opens, h, (query-Answered party packing addr conn e h).accepted);
      }
    where
      checked_answer :
          (o : Outcome ProtoError Entry)
          → ((e : Entry) → o ≡ ok e → GivenBy p addr e)
          → OfValue (GivenBy p addr) (map_err from_proto o)
      checked_answer (ok e) h = h e refl
      checked_answer (err x) h = tt
      checked_answer panic h = tt

  on_manager-Returns :
      {A : Type 0} {P : A → Type 0} (m : Pm setting A)
      → Returns P m
      → Returns P (on_manager setting m)
  on_manager-Returns {P = P} m h = record { at = λ s. same_value P (m s.1).0 (h.at s.1) }
    where
      same_value :
          {A : Type 0} (P : A → Type 0) (o : Outcome PeerError A)
          → OfValue P o
          → OfValue P (map_err (λ (e : PeerError). e) o)
      same_value P (ok a) h = h
      same_value P (err x) h = tt
      same_value P panic h = tt

  resolve_step-SomeVerified :
      (rounds : ℕ) (addr : Address) (i : Option Entry)
      → Returns (SomeVerified addr) (resolve_step setting (suc rounds) addr i)
  unfolding resolve_step
  resolve_step-SomeVerified rounds addr none =
      Returns-after (spend setting) λ _. record { at = λ s. tt }
  resolve_step-SomeVerified rounds addr (some e) = Returns-after (spend setting) λ _.
      Returns-after (on_manager setting (peer_for setting e)) λ p.
        Returns-bind (on_manager-Returns (query setting p addr) (answered p addr))
          λ kv h. Returns-pure (some kv) (p, h)

  -- What the loop does with the outcome of a step.
  step-Sent :
      (addr : Address) (next : Resolve setting Entry) (o : Outcome PeerError (Option Entry))
      (s : ℕ × PeerManager W S D)
      → Returns (Sent addr) next
      → OfValue (SomeVerified addr) o
      → OfValue
          (Sent addr)
          (recover o (take_if_equal setting addr next) (next_or_limit setting next) s).0
  step-Sent addr next (ok none) s k h = k.at s
  step-Sent addr next (ok (some e)) s k h = elim (Bool-cases (equals e.address addr)) [
    | inl same ↦ rw same (
        (Returns-after (on_manager setting (insert_ignored setting e))
            λ _. Returns-pure {P = Sent addr} e (h, same)).at
          s)
    | inr other ↦ rw other (k.at s)
  ]
  step-Sent addr next (err x) s k h =
      elim x as (λ x. OfValue (Sent addr) (next_or_limit setting next x s).0) [
        | recursion_limit ↦ tt
        | _ ↦ k.at s
      ]
  step-Sent addr next panic s k h = tt

  loop-Sent :
      (addr : Address) (l : List (Option Entry)) → Returns (Sent addr) (resolve_loop setting addr l)
  unfolding resolve_loop
  loop-Sent addr [] = record { at = λ s. tt }
  loop-Sent addr (i ∷ rest) =
      let r = resolve_step setting 7 addr i in
      record {
        at = λ s.
            step-Sent addr (resolve_loop setting addr rest) (r s).0 (r s).1 (loop-Sent addr rest)
              ((resolve_step-SomeVerified 6 addr i).at s);
      }

  -- What `Resolve` may return: the node's own entry, one of its database, or one that a peer sent.
  abbrev pub Resolved : Address → PeerManager W S D → Entry → Type 0
  Resolved addr pm e =
      ((equals addr pm.lp.address ≡ true) × (e ≡ pm.lp.entry))
      ⊎ (((id : ℤ) × ((Reading.query outside.env addr pm.lp.dht).0 ≡ ok (some e, id)))
          ⊎ Sent addr e)

  unknown-Sent : (addr : Address) → Returns (Sent addr) (or_resolve setting addr none)
  unknown-Sent addr =
      Returns-after (on_local setting (on_dht outside (Closest.find_closest outside.env addr)))
        λ closest. record { at = λ pm. (loop-Sent addr closest).at (the_depth, pm) }

  widened :
      (P Q : Entry → Type 0) (o : Outcome PeerError Entry)
      → ((e : Entry) → P e → Q e)
      → OfValue P o
      → OfValue Q o
  widened P Q (ok e) f h = f e h
  widened P Q (err x) f h = tt
  widened P Q panic f h = tt

  -- The rest of `Resolve` on the outcome of the query.
  queried :
      (addr : Address) (o : Outcome DbError (Option Entry × ℤ)) (lp : LocalPeer S D)
      (pm : PeerManager W S D) (Q : Entry → Type 0)
      → ((e : Entry) → (id : ℤ) → o ≡ ok (some e, id) → Q e)
      → ((e : Entry) → Sent addr e → Q e)
      → let r =
          recover
            (map_err db_error o)
            (λ a lp. (ok a, lp))
            (λ e. lift (none_of_no_rows setting e))
            lp in
        OfValue Q
          (continue
            (map_err from_local r.0)
            (λ t. or_resolve setting addr t.0)
            (record pm { lp = r.1 })).0
  queried addr (ok (some e, id)) lp pm Q f g = f e id refl
  queried addr (ok (none, id)) lp pm Q f g =
      widened (Sent addr) Q (or_resolve setting addr none (record pm { lp = lp })).0 g
        ((unknown-Sent addr).at (record pm { lp = lp }))
  queried addr (err (address_error x)) lp pm Q f g = tt
  queried addr (err (entry_error x)) lp pm Q f g = tt
  queried addr (err (sql_error failed)) lp pm Q f g = tt
  queried addr (err (sql_error no_rows)) lp pm Q f g =
      widened (Sent addr) Q (or_resolve setting addr none (record pm { lp = lp })).0 g
        ((unknown-Sent addr).at (record pm { lp = lp }))
  queried addr panic lp pm Q f g = tt

  resolve-OfValue :
      (addr : Address) (pm : PeerManager W S D)
      → OfValue (Resolved addr pm) (resolve setting addr pm).0
  unfolding resolve
  resolve-OfValue addr pm = elim (Bool-cases (equals addr pm.lp.address)) [
    | inl own ↦ rw own (inl (own, refl))
    | inr other ↦ rw other (
        queried addr (Reading.query outside.env addr pm.lp.dht).0
          (record pm.lp { dht = (Reading.query outside.env addr pm.lp.dht).1 }) pm
          (Resolved addr pm) (λ e id h. inr (inl (id, h))) (λ e h. inr (inr h)))
  ]

  -- Whatever the peers answer, an entry that `Resolve` returns is the node's own, when that is
  -- the address asked for, or the one that the database has of the address, or it is what a request
  -- for the address brought from a peer on a stream that was opened to it; and then `Verify` accepts
  -- it and it is of the address that was asked for.
  pub resolve-Resolved :
      (addr : Address) (pm : PeerManager W S D) (e : Entry)
      → (resolve setting addr pm).0 ≡ ok e
      → Resolved addr pm e
  resolve-Resolved addr pm e h = subst (OfValue (Resolved addr pm)) h (resolve-OfValue addr pm)
