-- ===== src/Util/Shuffle.antt =====
-- `ShuffleBytes` of util/util.go and `ShuffleEntries` of dht/entry.go, which are the same loop. What
-- `rand.Intn` draws in each round is a parameter.
use mathlib.Core.List.{Perm}
use mathlib.Core.List.Perm
use dfi.Prelude.{
  ℕ, zero, suc, ◌+◌, ◌<◌, ◌≡◌, refl, ◌∙◌, subst, arith, some, List, [], ◌∷◌, length, get_elem?, set,
  length-set, get_elem?_below,
}
use dfi.Prelude.Outcome.{Outcome, ok, or_panic, ◌>>=◌}

module _ {A : Type 0} where
  -- `slice[i], slice[j] = slice[j], slice[i]`
  unfoldable pub exchange : {E : Type 0} → List A → ℕ → ℕ → Outcome E (List A)
  exchange l i j = do
    a ← or_panic (get_elem? l i)
    b ← or_panic (get_elem? l j)
    ok (set (set l i b) j a)

  -- The loop from `i` on.
  unfoldable pub shuffle_from : {E : Type 0} → (ℕ → ℕ) → ℕ → ℕ → List A → Outcome E (List A)
  unfolding exchange
  shuffle_from intn zero i l = ok l
  shuffle_from intn (suc rounds) i l = do
    l' ← exchange l i (intn (i + 1))
    shuffle_from intn rounds (i + 1) l'

  unfoldable pub shuffle : {E : Type 0} → (ℕ → ℕ) → List A → Outcome E (List A)
  unfolding shuffle_from
  shuffle intn l = shuffle_from intn (length l) 0 l

  bring :
      (x : A) (t : List A) (i : ℕ) (b : A) → get_elem? t i ≡ some b → Perm (b ∷ set t i x) (x ∷ t)
  bring x [] i b h = cc h
  bring x (y ∷ t) zero b h =
      let same : y ≡ b = cc h in subst (λ c. Perm (c ∷ x ∷ t) (x ∷ y ∷ t)) same (Perm.swap x y t)
  bring x (y ∷ t) (suc i) b h =
      Perm.trans (Perm.swap y b (set t i x))
        (Perm.trans (Perm.cons y (bring x t i b h)) (Perm.swap x y t))

  set-set-Perm :
      (l : List A) (i j : ℕ) (a b : A)
      → get_elem? l i ≡ some a
      → get_elem? l j ≡ some b
      → Perm (set (set l i b) j a) l
  set-set-Perm [] i j a b h g = cc h
  set-set-Perm (x ∷ t) zero zero a b h g =
      let same : x ≡ a = cc h in subst (λ c. Perm (c ∷ t) (x ∷ t)) same Perm.rfl
  set-set-Perm (x ∷ t) zero (suc j) a b h g =
      let same : x ≡ a = cc h in subst (λ c. Perm (b ∷ set t j c) (x ∷ t)) same (bring x t j b g)
  set-set-Perm (x ∷ t) (suc i) zero a b h g =
      let same : x ≡ b = cc g in subst (λ c. Perm (a ∷ set t i c) (x ∷ t)) same (bring x t i a h)
  set-set-Perm (x ∷ t) (suc i) (suc j) a b h g = Perm.cons x (set-set-Perm t i j a b h g)

  exchange-Perm :
      {E : Type 0} (l : List A) (i j : ℕ)
      → i < length l
      → j < length l
      → (l' : List A) × (exchange {E = E} l i j ≡ ok l') × Perm l' l × (length l' ≡ length l)
  unfolding exchange
  exchange-Perm l i j below below' =
      let (a, h) = get_elem?_below l i below in
      let (b, g) = get_elem?_below l j below' in
      (
        set (set l i b) j a,
        rw (h, g) refl,
        set-set-Perm l i j a b h g,
        length-set (set l i b) j a ∙ length-set l i b,
      )

  shuffle_from-Perm :
      {E : Type 0} (intn : ℕ → ℕ) (rounds i : ℕ) (l : List A)
      → ((n : ℕ) → intn (n + 1) < n + 1)
      → rounds + i ≡ length l
      → (l' : List A) × (shuffle_from {E = E} intn rounds i l ≡ ok l') × Perm l' l
  unfolding shuffle_from
  shuffle_from-Perm intn zero i l drawn size = (l, refl, Perm.rfl)
  shuffle_from-Perm {E} intn (suc rounds) i l drawn size =
      let bound = drawn i in
      let (l', done, perm, same) =
        exchange-Perm {E = E} l i (intn (i + 1)) (omega arith) (omega arith) in
      let (l'', ends, perm') =
        shuffle_from-Perm {E = E} intn rounds (i + 1) l' drawn (omega arith) in
      (l'', rw done ends, Perm.trans perm' perm)

  -- Where `rand.Intn` draws a number below its bound, as it is documented to: `ShuffleBytes` and
  -- `ShuffleEntries` index no element out of range, and what they leave in the slice are the same
  -- elements, each as often as before.
  pub shuffle-Perm :
      {E : Type 0} (intn : ℕ → ℕ) (l : List A)
      → ((n : ℕ) → intn (n + 1) < n + 1)
      → (l' : List A) × (shuffle {E = E} intn l ≡ ok l') × Perm l' l
  unfolding shuffle
  shuffle-Perm {E} intn l drawn = shuffle_from-Perm {E = E} intn (length l) 0 l drawn (omega arith)
