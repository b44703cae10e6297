-- ===== src/Util/Maps.antt =====
-- The maps of the package cmap, keyed by strings, as association lists in the order in which they
-- are iterated.
use dfi.Prelude.{
  ◌+◌, ◌≤◌, ◌≡◌, refl, arith, Bool, true, false, Option, none, some, List, [], ◌∷◌, length, ◌⊎◌,
  sym, ap, ◌∙◌, bytes_eq, bytes_eq_sound, bytes_eq_refl, Bool-cases, inl, inr, if◌then◌else◌,
}
use dfi.Dht.Address.{Bytes}

abbrev pub Map : Type 0 → Type 0
Map A = List (Bytes × A)

module _ {A : Type 0} where
  unfoldable pub get : Bytes → Map A → Option A
  get k [] = none
  get k ((j, a) ∷ m) = let rest = get k m in if bytes_eq j k then some a else rest

  abbrev pub has : Bytes → Map A → Bool
  has k m = elim (get k m) [ none ↦ false | some _ ↦ true ]

  unfoldable pub remove : Bytes → Map A → Map A
  remove k [] = []
  remove k ((j, a) ∷ m) = let rest = remove k m in if bytes_eq j k then rest else (j, a) ∷ rest

  -- A new key comes last.
  unfoldable pub put : Bytes → A → Map A → Map A
  put k a [] = (k, a) ∷ []
  put k a ((j, b) ∷ m) = let rest = put k a m in if bytes_eq j k then (k, a) ∷ m else (j, b) ∷ rest

  pub length-remove : (k : Bytes) (m : Map A) → length (remove k m) ≤ length m
  unfolding remove
  length-remove k [] = omega arith
  length-remove k ((j, a) ∷ m) = elim (Bool-cases (bytes_eq j k)) [
    | inl same ↦ rw same (omega (arith, length-remove k m))
    | inr other ↦ rw other (omega (arith, length-remove k m))
  ]

  -- A key that is there is removed.
  pub length-remove_has :
      (k : Bytes) (m : Map A) (a : A) → get k m ≡ some a → length (remove k m) + 1 ≤ length m
  unfolding remove get
  length-remove_has k [] a h = cc
  length-remove_has k ((j, b) ∷ m) a h = elim (Bool-cases (bytes_eq j k)) [
    | inl same ↦ rw same (omega (arith, length-remove k m))
    | inr other ↦ rw other (omega (arith, length-remove_has k m a (rw other at h)))
  ]

  get-remove_self : (k : Bytes) (m : Map A) → get k (remove k m) ≡ none
  unfolding remove get
  get-remove_self k [] = refl
  get-remove_self k ((j, b) ∷ m) = elim (Bool-cases (bytes_eq j k)) [
    | inl same ↦ rw same (get-remove_self k m)
    | inr other ↦ rw (other, get, other) (get-remove_self k m)
  ]

  -- What is found after a removal was there before.
  pub get-remove :
      (k j : Bytes) (m : Map A) (a : A) → get k (remove j m) ≡ some a → get k m ≡ some a
  unfolding remove get
  get-remove k j [] a h = h
  get-remove k j ((i, b) ∷ m) a h = elim (Bool-cases (bytes_eq i j)) [
    | inl gone ↦ elim (Bool-cases (bytes_eq i k)) [
      | inl here ↦
          let same : k ≡ j = sym (bytes_eq_sound i k here) ∙ bytes_eq_sound i j gone in
          let left : get k (remove j m) ≡ some a = (rw gone at h) in
          cc (get-remove_self j m, ap (λ l. get l (remove j m)) same, left)
      | inr there ↦ rw there (get-remove k j m a (rw gone at h))
    ]
    | inr kept ↦ elim (Bool-cases (bytes_eq i k)) [
      | inl here ↦ rw here (rw (kept, get, here) at h)
      | inr there ↦ rw there (get-remove k j m a (rw (kept, get, there) at h))
    ]
  ]

  -- What is found after a write is what was written, or was there before.
  pub get-put :
      (k j : Bytes) (m : Map A) (b a : A)
      → get k (put j b m) ≡ some a
      → ((k ≡ j) × (a ≡ b)) ⊎ (get k m ≡ some a)
  unfolding put get
  get-put k j [] b a h = elim (Bool-cases (bytes_eq j k)) [
    | inl here ↦ inl (sym (bytes_eq_sound j k here), cc (rw here at h))
    | inr there ↦ inr (rw there at h)
  ]
  get-put k j ((i, c) ∷ m) b a h = elim (Bool-cases (bytes_eq i j)) [
    | inl same ↦ elim (Bool-cases (bytes_eq j k)) [
      | inl here ↦ inl (sym (bytes_eq_sound j k here), cc (rw (same, get, here) at h))
      | inr there ↦
          let other : bytes_eq i k ≡ false =
            ap (λ l. bytes_eq l k) (bytes_eq_sound i j same) ∙ there in
          inr (rw other (rw (same, get, there) at h))
    ]
    | inr kept ↦ elim (Bool-cases (bytes_eq i k)) [
      | inl here ↦ inr (rw here (rw (kept, get, here) at h))
      | inr there ↦ elim (get-put k j m b a (rw (kept, get, there) at h)) [
        | inl e ↦ inl e
        | inr e ↦ inr (rw there e)
      ]
    ]
  ]

  -- A key that was written is found, and a key that was there still is.
  pub get-put_self : (k : Bytes) (a : A) (m : Map A) → get k (put k a m) ≡ some a
  unfolding put get
  get-put_self k a [] = rw (bytes_eq_refl k) refl
  get-put_self k a ((j, b) ∷ m) = elim (Bool-cases (bytes_eq j k)) [
    | inl same ↦ rw (same, get, bytes_eq_refl k) refl
    | inr other ↦ rw (other, get, other) (get-put_self k a m)
  ]

  pub get-put_there :
      (k j : Bytes) (b a : A) (m : Map A)
      → get k m ≡ some a
      → (c : A) × (get k (put j b m) ≡ some c)
  unfolding put get
  get-put_there k j b a [] h = cc h
  get-put_there k j b a ((i, c) ∷ m) h = elim (Bool-cases (bytes_eq i j)) [
    | inl same ↦ elim (Bool-cases (bytes_eq j k)) [
      | inl here ↦ (b, rw (same, get, here) refl)
      | inr there ↦
          let other : bytes_eq i k ≡ false =
            ap (λ l. bytes_eq l k) (bytes_eq_sound i j same) ∙ there in
          (a, rw (same, get, there) (rw other at h))
    ]
    | inr kept ↦ elim (Bool-cases (bytes_eq i k)) [
      | inl here ↦ (c, rw (kept, get, here) refl)
      | inr there ↦
          let (d, e) = get-put_there k j b a m (rw there at h) in (d, rw (kept, get, there) e)
    ]
  ]
