-- ===== src/Dht/Address/Zeroes.antt =====
-- `LeadingZeroes` measures the number that the bytes write, and is an index into the table.
use native.Mathlib.Nat.{pow-suc, mul-le-mul_right}
use native.Mathlib.Numerals.{towards_suc}
use dfi.Prelude.{
  ℕ, zero, suc, ◌+◌, ◌-◌, ◌*◌, ◌^◌, ◌<◌, ◌≤◌, ◌≡◌, refl, ap, ◌∙◌, ◌⊎◌, inl, inr, Bool, true, ◌&&◌,
  Option, none, some, [], ◌∷◌, length, ltb, leb, ◌==◌, arith,
}
use dfi.Prelude.Int.{pos}
use dfi.Dht.Address.{Address, Bytes, first_bit, first_one, return_at, leading_zeroes, last_bit}
use dfi.Dht.Address.Order.{value, AllBytes, value-lt-pow}

-- Over a small range, every value is checked by evaluation.
test_range : (ℕ → Bool) → ℕ → Bool
test_range test zero = true
test_range test (suc k) = test_range test k && test k

test_range-true :
    (test : ℕ → Bool) (k : ℕ) → test_range test k ≡ true → (b : ℕ) → b < k → test b ≡ true
unfolding test_range
test_range-true test zero all b low = absurd (omega (arith, low))
test_range-true test (suc k) all b low =
    let earlier =
      λ (part : test_range test k ≡ true) (less : b < k). test_range-true test k part b less in
    ground (arith, earlier)

-- What a byte's first one bit says of the byte.
in_window : ℕ → Option ℕ → Bool
in_window x none = x == 0
in_window x (some j) = ltb j 8 && (leb ((x + 1) * 2 ^ j) 256 && leb 256 (x * 2 ^ j * 2))

first_bit_table : test_range (λ x. in_window x (first_bit 8 x 0)) 256 ≡ true
unfolding test_range in_window first_bit
first_bit_table = refl

in_window-none : (x : ℕ) → in_window x none ≡ true → x ≡ 0
unfolding in_window
in_window-none x h = ground arith

in_window-some :
    (x j : ℕ)
    → in_window x (some j) ≡ true
    → (j < 8) × ((x + 1) * 2 ^ j ≤ 256) × (256 ≤ x * 2 ^ j * 2)
unfolding in_window
in_window-some x j h = ground arith

-- A place in a number of `n` bytes: below it there are zeroes, and there stands a one.
abbrev IsTop : Bytes → ℕ → Type 0
IsTop xs n =
    (n < 8 * length xs)
    × (value xs * 2 ^ n < 256 ^ length xs)
    × (256 ^ length xs ≤ value xs * 2 ^ n * 2)

abbrev FirstOne : ℕ → Bytes → Option ℕ → Type 0
FirstOne i xs none = value xs ≡ 0
FirstOne i xs (some k) = (n : ℕ) × (k ≡ i * 8 + n) × IsTop xs n

top_here :
    (x p v m : ℕ)
    → (x + 1) * p ≤ 256
    → 256 ≤ x * p * 2
    → v < m
    → 0 < p
    → ((x * m + v) * p < 256 * m) × (256 * m ≤ (x * m + v) * p * 2)
top_here x p v m a b c d =
    (omega (arith, mul-le-mul_right m a, mul-le-mul_right p c), omega (arith, mul-le-mul_right m b))

pow_pos : (n : ℕ) → 0 < 2 ^ n
pow_pos zero = omega arith
pow_pos (suc n) = omega (arith, pow-suc 2 n, pow_pos n)

pow_add_eight : (n : ℕ) → 2 ^ (n + 8) ≡ 256 * 2 ^ n
pow_add_eight n = simp towards_suc (omega arith)

-- One byte of the outer loop.
FirstOne-byte :
    (i x : ℕ) (xs : Bytes) (o rest : Option ℕ)
    → AllBytes xs
    → in_window x o ≡ true
    → FirstOne (i + 1) xs rest
    → FirstOne i (x ∷ xs) (return_at i o rest)
FirstOne-byte i x xs none none b h r = rw (in_window-none x h) (omega (arith, r))
FirstOne-byte i x xs none (some k) b h (n, e, t) =
    let shifted = ap (λ (p : ℕ). value xs * p) (pow_add_eight n) in
    (
      n + 8,
      omega arith,
      rw (in_window-none x h) (
        omega arith,
        omega (arith, shifted, pow-suc 256 (length xs)),
        omega (arith, shifted, pow-suc 256 (length xs)),
      ),
    )
FirstOne-byte i x xs (some j) rest b h r =
    let (small, fits, top) = in_window-some x j h in
    let (low, high) =
      top_here x (2 ^ j) (value xs) (256 ^ length xs) fits top (value-lt-pow xs b) (pow_pos j) in
    (
      j,
      refl,
      (omega arith, omega (arith, pow-suc 256 (length xs)), omega (arith, pow-suc 256 (length xs))),
    )

pub first_one_lem : (i : ℕ) (xs : Bytes) → AllBytes xs → FirstOne i xs (first_one i xs)
unfolding first_one
first_one_lem i [] h = refl
first_one_lem i (x ∷ xs) h =
    FirstOne-byte i x xs (first_bit 8 x 0) (first_one (i + 1) xs) h.1
      (test_range-true (λ y. in_window y (first_bit 8 y 0)) 256 first_bit_table x h.0)
      (first_one_lem (i + 1) xs h.1)

pow-pos : (n : ℕ) → 0 < 256 ^ n
pow-pos zero = omega arith
pow-pos (suc n) = omega (arith, pow-suc 256 n, pow-pos n)

zero_or_pos : (n : ℕ) → (n ≡ 0) ⊎ (0 < n)
zero_or_pos n = omega arith

last_bit_pos : (n : ℕ) → 0 < n → last_bit n ≡ pos (n * 8 - 1)
last_bit_pos zero h = absurd (omega arith)
last_bit_pos (suc n) h = ap pos (omega arith)

leading_zeroes_at :
    (a : Address) (o : Option ℕ)
    → first_one 0 a.raw ≡ o
    → FirstOne 0 a.raw o
    → (0 < value a.raw
        → (n : ℕ) × (leading_zeroes a ≡ pos n)
          × (n < 8 * length a.raw)
          × (value a.raw * 2 ^ n < 256 ^ length a.raw)
          × (256 ^ length a.raw ≤ value a.raw * 2 ^ n * 2))
      × (value a.raw ≡ 0 → leading_zeroes a ≡ last_bit (length a.raw))
unfolding leading_zeroes
leading_zeroes_at a none e z = (λ h. absurd (omega arith), λ h. rw (e, leading_zeroes) refl)
leading_zeroes_at a (some k) e (n, p, t) = (
  λ h. (n, rw (e, leading_zeroes) (ap pos (omega arith)), t.0, t.1, t.2),
  λ h. absurd (omega (arith, pow-pos (length a.raw), ap (λ (v : ℕ). v * 2 ^ n) h)),
)

-- On an address that is not all zeroes, `LeadingZeroes` is the number `n` of zero bits above the
-- first one bit of the big-endian number: shifted left by `n` the number still fits its bytes, and
-- shifted by one more it no longer does. On zeroes alone it is the index of the last bit.
pub leading_zeroes_lem :
    (a : Address)
    → AllBytes a.raw
    → (0 < value a.raw
        → (n : ℕ) × (leading_zeroes a ≡ pos n)
          × (n < 8 * length a.raw)
          × (value a.raw * 2 ^ n < 256 ^ length a.raw)
          × (256 ^ length a.raw ≤ value a.raw * 2 ^ n * 2))
      × (value a.raw ≡ 0 → leading_zeroes a ≡ last_bit (length a.raw))
leading_zeroes_lem a h = leading_zeroes_at a (first_one 0 a.raw) refl (first_one_lem 0 a.raw h)

-- The index of a non-empty address lies among its bits.
pub leading_zeroes-lt :
    (a : Address)
    → AllBytes a.raw
    → 0 < length a.raw
    → (n : ℕ) × (leading_zeroes a ≡ pos n) × (n < 8 * length a.raw)
leading_zeroes-lt a h some_bytes = elim (zero_or_pos (value a.raw)) [
  | inl z ↦ (
    length a.raw * 8 - 1,
    (leading_zeroes_lem a h).1 z ∙ last_bit_pos (length a.raw) some_bytes,
    omega arith,
  )
  | inr p ↦ let (n, e, below, _, _) = (leading_zeroes_lem a h).0 p in (n, e, below)
]
