-- ===== src/Dht/Table/Bucket.antt =====
-- What a bucket holds after an insertion, as a list with no arrays.
use dfi.Prelude.{
  ℕ, zero, suc, ◌+◌, ◌-◌, ◌<◌, ◌≤◌, ◌≡◌, ◌≢◌, refl, ap, subst, false, none, some, List, [], ◌∷◌,
  length, take, All, arith, bytes_eq, bytes_eq_sound, bytes_eq_refl, inl, inr, Bool-cases,
  length-take, take-take, take-All, if◌then◌else◌,
}
use dfi.Dht.Address.{Address, Bytes, equals}
use dfi.Dht.Table.{find_equal, remove_at, bucket_size}

-- The bucket without the first address that has these bytes.
unfoldable pub remove : Bytes → List Address → List Address
remove raw [] = []
remove raw (b ∷ bs) = if bytes_eq b.raw raw then bs else b ∷ remove raw bs

-- The contract of an insertion: the address comes first, and of the others the newest stay.
abbrev pub refreshed : Address → List Address → List Address
refreshed addr bs = addr ∷ take (bucket_size - 1) (remove addr.raw bs)

abbrev pub Absent : Bytes → List Address → Type 0
Absent raw = All (λ b. b.raw ≢ raw)

-- No two addresses of the bucket have the same bytes.
abbrev pub AreDistinct : List Address → Type 0
AreDistinct [] = Unit
AreDistinct (b ∷ bs) = Absent b.raw bs × AreDistinct bs

ne_of_test : (xs ys : Bytes) → bytes_eq xs ys ≡ false → xs ≢ ys
ne_of_test xs ys h e = cc (bytes_eq_refl xs, h, e)

pub find_equal-none :
    (addr : Address) (bs : List Address)
    → find_equal addr bs ≡ none
    → (remove addr.raw bs ≡ bs) × Absent addr.raw bs
unfolding find_equal remove equals
find_equal-none addr [] h = (refl, tt)
find_equal-none addr (b ∷ bs) h = elim (Bool-cases (bytes_eq b.raw addr.raw)) [
  | inl same ↦ absurd (ground arith)
  | inr other ↦
      let ih = find_equal-none addr bs (ground arith) in
      (rw other (ap (◌∷◌ b) ih.0), (ne_of_test b.raw addr.raw other, ih.1))
]

pub find_equal-some :
    (addr : Address) (bs : List Address) (n : ℕ)
    → find_equal addr bs ≡ some n
    → (n < length bs) × (remove_at n bs ≡ remove addr.raw bs)
unfolding find_equal remove equals
find_equal-some addr [] n h = cc
find_equal-some addr (b ∷ bs) zero h = elim (Bool-cases (bytes_eq b.raw addr.raw)) [
  | inl same ↦ (omega arith, rw same refl)
  | inr other ↦ absurd (ground arith)
]
find_equal-some addr (b ∷ bs) (suc n) h = elim (Bool-cases (bytes_eq b.raw addr.raw)) [
  | inl same ↦ absurd (ground arith)
  | inr other ↦
      let (below, e) = find_equal-some addr bs n (ground arith) in
      (omega arith, rw other (ap (◌∷◌ b) e))
]

pub length-remove_at :
    (n : ℕ) (bs : List Address) → n < length bs → length (remove_at n bs) + 1 ≡ length bs
length-remove_at zero [] h = elim h [ ]
length-remove_at zero (b ∷ bs) h = omega arith
length-remove_at (suc n) [] h = elim h [ ]
length-remove_at (suc n) (b ∷ bs) h = omega (arith, length-remove_at n bs (omega arith))

remove-All {κ} :
    (P : Address → Type κ) (raw : Bytes) (bs : List Address) → All P bs → All P (remove raw bs)
unfolding remove
remove-All P raw [] h = tt
remove-All P raw (b ∷ bs) h = elim (Bool-cases (bytes_eq b.raw raw)) [
  | inl same ↦ rw same h.1
  | inr other ↦ rw other (h.0, remove-All P raw bs h.1)
]

take-AreDistinct : (n : ℕ) (bs : List Address) → AreDistinct bs → AreDistinct (take n bs)
take-AreDistinct zero bs h = tt
take-AreDistinct (suc n) [] h = tt
take-AreDistinct (suc n) (b ∷ bs) h = (take-All _ n bs h.0, take-AreDistinct n bs h.1)

remove-AreDistinct :
    (raw : Bytes) (bs : List Address) → AreDistinct bs → AreDistinct (remove raw bs)
unfolding remove
remove-AreDistinct raw [] h = tt
remove-AreDistinct raw (b ∷ bs) h = elim (Bool-cases (bytes_eq b.raw raw)) [
  | inl same ↦ rw same h.1
  | inr other ↦ rw other (remove-All _ raw bs h.0, remove-AreDistinct raw bs h.1)
]

remove-Absent : (raw : Bytes) (bs : List Address) → AreDistinct bs → Absent raw (remove raw bs)
unfolding remove
remove-Absent raw [] h = tt
remove-Absent raw (b ∷ bs) h = elim (Bool-cases (bytes_eq b.raw raw)) [
  | inl same ↦ rw same (subst (λ r. Absent r bs) (bytes_eq_sound b.raw raw same) h.0)
  | inr other ↦ rw other (ne_of_test b.raw raw other, remove-Absent raw bs h.1)
]

pub refreshed-AreDistinct :
    (addr : Address) (bs : List Address) → AreDistinct bs → AreDistinct (refreshed addr bs)
refreshed-AreDistinct addr bs h = (
  take-All _ 19 (remove addr.raw bs) (remove-Absent addr.raw bs h),
  take-AreDistinct 19 (remove addr.raw bs) (remove-AreDistinct addr.raw bs h),
)

pub refreshed-All {κ} :
    (P : Address → Type κ) (addr : Address) (bs : List Address)
    → P addr
    → All P bs
    → All P (refreshed addr bs)
refreshed-All P addr bs p h = (p, take-All P 19 (remove addr.raw bs) (remove-All P addr.raw bs h))

pub length-refreshed :
    (addr : Address) (bs : List Address) → length (refreshed addr bs) ≤ bucket_size
length-refreshed addr bs = omega (arith, length-take 19 (remove addr.raw bs))

-- One address past the bound is enough to know what a removal leaves below the bound.
pub take-remove :
    (n : ℕ) (raw : Bytes) (bs : List Address)
    → take n (remove raw (take (suc n) bs)) ≡ take n (remove raw bs)
unfolding remove
take-remove n raw [] = refl
take-remove zero raw (b ∷ bs) = refl
take-remove (suc n) raw (b ∷ bs) = elim (Bool-cases (bytes_eq b.raw raw)) [
  | inl same ↦ rw same (take-take (suc n) (suc n) bs (omega arith))
  | inr other ↦ rw other (ap (◌∷◌ b) (take-remove n raw bs))
]
