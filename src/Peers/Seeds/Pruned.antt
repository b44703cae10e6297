-- ===== src/Peers/Seeds/Pruned.antt =====
-- What is left of the seeds that were found.
use dfi.Prelude.{
  ℕ, zero, suc, ◌+◌, ◌≤◌, ◌≡◌, refl, ap, ◌∙◌, subst, arith, true, false, [], length, get_or, leb,
}
use dfi.Prelude.Outcome.{ok, panic}
use dfi.Prelude.Action.{Action}
use dfi.Dht.Address.{Bytes}
use dfi.Peers.Seeds.{Verdict, unresolved, linked, Seeds, cut_out, prune}

module _ {T E : Type 0} (judge : Bytes → Action T E Verdict) where
  -- The seeds from the place `n` on are judged one after the other, `rounds` of them, and each links
  -- back. Each verdict is given in the state that the one before it left.
  pub data AllLinked (s : Seeds) : ℕ → ℕ → T → T → Type 0 where
    none_left : {n : ℕ} {t : T} → AllLinked s zero n t t
    next_linked :
        {rounds n : ℕ} {t t' t'' : T}
        → judge (get_or s.array n []) t ≡ (ok linked, t')
        → AllLinked s rounds (n + 1) t' t''
        → AllLinked s (suc rounds) n t t''

  prune-linked :
      (s : Seeds) (rounds n : ℕ) (t t' : T)
      → AllLinked s rounds n t t'
      → prune judge rounds n s t ≡ (ok s, t')
  unfolding prune
  prune-linked s _ n t _ none_left = refl
  prune-linked s _ n t t' (next_linked {rounds = rounds} {t' = after} e rest) =
      rw (prune, e) (prune-linked s rounds (n + 1) after t' rest)

  -- When every new seed links back, all of them are kept.
  pub prune-kept :
      (s : Seeds) (t t' : T) → AllLinked s s.len 0 t t' → prune judge s.len 0 s t ≡ (ok s, t')
  prune-kept s t t' h = prune-linked s s.len 0 t t' h

  -- The seeds before the last one change nothing.
  prune-last :
      (s : Seeds) (rounds n : ℕ) (t t' t'' : T)
      → AllLinked s rounds n t t'
      → judge (get_or s.array (n + rounds) []) t' ≡ (ok unresolved, t'')
      → s.len ≡ n + rounds + 1
      → s.len ≤ length s.array
      → (prune judge (suc rounds) n s t).0 ≡ panic
  unfolding prune cut_out
  prune-last s _ n t _ t'' none_left last size fits =
      let here : judge (get_or s.array n []) t ≡ (ok unresolved, t'') =
        subst (λ k. judge (get_or s.array k []) t ≡ (ok unresolved, t'')) (omega arith) last in
      let at_end : leb s.len (n + 1) ≡ true = ground (arith, size) in
      let inside : leb n (length s.array) ≡ true = ground (arith, size, fits) in
      let over : leb (n + 1) n ≡ false = ground arith in
      rw (prune, here) (rw at_end (rw inside (rw over refl)))
  prune-last s _ n t t' t'' (next_linked {rounds = rounds} {t' = after} e rest) last size fits =
      let end : judge (get_or s.array (n + 1 + rounds) []) t' ≡ (ok unresolved, t'') =
        subst (λ k. judge (get_or s.array k []) t' ≡ (ok unresolved, t'')) (omega arith) last in
      rw (prune, e) (prune-last s rounds (n + 1) after t' t'' rest end (omega (arith, size)) fits)

  -- When the last of the new seeds has no entry that can be found once the others were judged, and the
  -- others link back, the loop panics: it takes that seed out twice. The slice is one that Go allows,
  -- no longer than its array.
  pub prune-panic :
      (s : Seeds) (rounds : ℕ) (t t' t'' : T)
      → s.len ≡ rounds + 1
      → s.len ≤ length s.array
      → AllLinked s rounds 0 t t'
      → judge (get_or s.array rounds []) t' ≡ (ok unresolved, t'')
      → (prune judge s.len 0 s t).0 ≡ panic
  prune-panic s rounds t t' t'' size fits linked_all last =
      let count : s.len ≡ suc rounds = omega (arith, size) in
      let end : judge (get_or s.array (0 + rounds) []) t' ≡ (ok unresolved, t'') =
        subst (λ j. judge (get_or s.array j []) t' ≡ (ok unresolved, t'')) (omega arith) last in
      ap (λ (n : ℕ). (prune judge n 0 s t).0) count
      ∙ prune-last s rounds 0 t t' t'' linked_all end (omega (arith, size)) fits
