-- ===== src/Peers/Depth.antt =====
-- How many peers `Resolve` asks.
use dfi.Prelude.{
  ℕ, zero, suc, ◌≡◌, refl, Option, none, some, List, [], ◌∷◌, inl, inr, Bool-cases, if◌then◌else◌,
}
use dfi.Prelude.Outcome.{Outcome, ok, err, panic}
use dfi.Prelude.Action.{continue, map_err, pure, lift, attempt, recover, ◌>>=◌, ◌>>◌}
use dfi.Dht.Address.{Address, equals}
use dfi.Dht.Entry.{Entry}
use dfi.Peers.{PeerError, Setting, PeerManager, Pm, Peer, query, recursion_limit, unresolved}
use dfi.Peers.Connecting.{insert_ignored}
use dfi.Peers.Resolving.{
  Resolve, on_manager, peer_for, resolve_step, take_if_equal, next_or_limit, resolve_loop,
  resolve_among, the_depth,
}

module _ {W S D : Type 0} (setting : Setting W S D) where
  open setting use {outside, world, party, packing}

  -- `resolveStep` asks one peer and goes no further: its recursion over the closest entries of that
  -- peer is never reached, as `Query` returns an error when it returns no entry. One round of the
  -- recursion is enough.
  pub resolve_step-one :
      (rounds : ℕ) (addr : Address) (i : Option Entry)
      → resolve_step setting (suc rounds) addr i ≡ resolve_step setting 1 addr i
  unfolding resolve_step
  resolve_step-one rounds addr none = refl
  resolve_step-one rounds addr (some e) = refl

  -- What a peer answers that is asked for the address.
  abbrev pub ask : Address → Entry → Pm setting Entry
  ask addr e = do p ← peer_for setting e; query setting p addr

  abbrev pub or_next : Pm setting Entry → PeerError → Pm setting Entry
  or_next next recursion_limit = lift (err recursion_limit)
  or_next next _ = next

  abbrev pub taken : Address → Pm setting Entry → Entry → Pm setting Entry
  taken addr next e = if equals e.address addr then insert_ignored setting e >> pure e else next

  -- The reference, without a counter: the peers of the first `n` entries are asked in turn, until one
  -- has an entry of the address.
  unfoldable pub ask_first : ℕ → Address → List (Option Entry) → Pm setting Entry
  ask_first n addr [] = lift (err unresolved)
  ask_first zero addr (i ∷ rest) = lift (err recursion_limit)
  ask_first (suc n) addr (none ∷ rest) = lift panic
  ask_first (suc n) addr (some e ∷ rest) =
      let next = ask_first n addr rest in attempt (ask addr e) (taken addr next) (or_next next)

  abbrev Result : Type 0
  Result = Outcome PeerError Entry × PeerManager W S D

  unfoldable without_depth : Outcome PeerError Entry × (ℕ × PeerManager W S D) → Result
  without_depth (o, (d, pm)) = (o, pm)

  abbrev asked : Outcome PeerError Entry → Outcome PeerError (Option Entry)
  asked (ok e) = ok (some e)
  asked (err x) = err x
  asked panic = panic

  module _ (d : ℕ) where
    from_query :
        (o : Outcome PeerError Entry) (pm : PeerManager W S D)
        → let s : ℕ × PeerManager W S D = (d, pm) in
          continue (map_err (λ (e : PeerError). e) o) (λ kv. pure (some kv)) s ≡ (asked o, s)
    from_query (ok kv) pm = refl
    from_query (err x) pm = refl
    from_query panic pm = refl

    from_peer :
        (addr : Address) (o : Outcome PeerError Peer) (pm : PeerManager W S D)
        → let s : ℕ × PeerManager W S D = (d, pm) in
          let r = continue o (λ p. query setting p addr) pm in
          continue
            (map_err (λ (e : PeerError). e) o)
            (λ p. on_manager setting (query setting p addr) >>= λ kv. pure (some kv))
            s
          ≡ (asked r.0, (d, r.1))
    from_peer addr (ok p) pm = from_query (query setting p addr pm).0 (query setting p addr pm).1
    from_peer addr (err x) pm = refl
    from_peer addr panic pm = refl

    step_asks :
        (addr : Address) (e : Entry) (pm : PeerManager W S D)
        → resolve_step setting 7 addr (some e) (suc d, pm)
          ≡ (asked (ask addr e pm).0, (d, (ask addr e pm).1))
    unfolding resolve_step
    step_asks addr e pm = from_peer addr (peer_for setting e pm).0 (peer_for setting e pm).1

    after_ask :
        (addr : Address) (next : Resolve setting Entry) (next' : Pm setting Entry)
        (o : Outcome PeerError Entry) (pm : PeerManager W S D)
        → ((pm : PeerManager W S D) → without_depth (next (d, pm)) ≡ next' pm)
        → let s : ℕ × PeerManager W S D = (d, pm) in
          without_depth
            (recover (asked o) (take_if_equal setting addr next) (next_or_limit setting next) s)
          ≡ recover o (taken addr next') (or_next next') pm
    unfolding without_depth
    after_ask addr next next' (ok e) pm h = elim (Bool-cases (equals e.address addr)) [
      | inl same ↦ rw same (kept (insert_ignored setting e pm).0 (insert_ignored setting e pm).1)
      | inr other ↦ rw other (h pm)
    ]
      where
        kept :
            (o : Outcome PeerError (Unit {0})) (pm : PeerManager W S D)
            → let s : ℕ × PeerManager W S D = (d, pm) in
              without_depth (continue (map_err (λ (e : PeerError). e) o) (λ _. pure e) s)
              ≡ continue o (λ _. pure e) pm
        kept (ok t) pm = refl
        kept (err x) pm = refl
        kept panic pm = refl
    after_ask addr next next' (err x) pm h =
        elim x as (λ x. without_depth (next_or_limit setting next x (d, pm)) ≡ or_next next' x pm) [
          | recursion_limit ↦ refl
          | _ ↦ h pm
        ]
    after_ask addr next next' panic pm h = refl

  loop-ask_first :
      (d : ℕ) (addr : Address) (l : List (Option Entry)) (pm : PeerManager W S D)
      → without_depth (resolve_loop setting addr l (d, pm)) ≡ ask_first d addr l pm
  unfolding resolve_loop ask_first without_depth
  loop-ask_first d addr [] pm = refl
  loop-ask_first zero addr (i ∷ rest) pm = unfold resolve_step in refl
  loop-ask_first (suc d) addr (none ∷ rest) pm = unfold resolve_step in refl
  loop-ask_first (suc d) addr (some e ∷ rest) pm = rw (step_asks d addr e pm) (
      after_ask d addr (resolve_loop setting addr rest) (ask_first d addr rest) (ask addr e pm).0
        (ask addr e pm).1 (loop-ask_first d addr rest))

  -- Of the closest entries `Resolve` asks the peers of the first six, one after the other and once
  -- each, until one answers with an entry of the address; if none of them does and there is a seventh
  -- entry, it ends with the error of the limit.
  pub resolve_among-ask_first :
      (addr : Address) (closest : List (Option Entry)) (pm : PeerManager W S D)
      → resolve_among setting addr closest pm ≡ ask_first 6 addr closest pm
  unfolding without_depth
  resolve_among-ask_first addr closest pm = loop-ask_first the_depth addr closest pm
