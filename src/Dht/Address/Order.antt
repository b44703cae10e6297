-- ===== src/Dht/Address/Order.antt =====
-- The order of addresses is the order of the numbers that their bytes write, most significant first.
use native.Mathlib.Nat.{pow-suc}
use dfi.Prelude.{
  ℕ, ◌+◌, ◌*◌, ◌^◌, ◌<◌, ◌≡◌, refl, ◌⊎◌, Bool, [], ◌∷◌, length, ltb, All, ◌==◌, arith, inl, inr,
  if◌then◌else◌,
}
use dfi.Prelude.Outcome.{Outcome, ok}
use dfi.Dht.Address.{Address, AddressError, Bytes, less, less_bytes}

-- The number of a big-endian byte string.
abbrev pub value : Bytes → ℕ
value [] = 0
value (x ∷ xs) = x * 256 ^ length xs + value xs

abbrev pub AllBytes : Bytes → Type 0
AllBytes = All (λ x. x < 256)

pub value-lt-pow : (xs : Bytes) → AllBytes xs → value xs < 256 ^ length xs
value-lt-pow [] h = omega arith
value-lt-pow (x ∷ xs) h = grind (arith, pow-suc 256 (length xs), value-lt-pow xs h.1)

lt_cases : (x y : ℕ) → (x < y) ⊎ ((x ≡ y) ⊎ (y < x))
lt_cases x y = omega arith

-- A leading digit decides, and an equal one leaves it to the rest.
digit_lt : (x y m v w : ℕ) → v < m → x < y → x * m + v < y * m + w
digit_lt x y m v w p h = grind arith

ltb_digit :
    (x y m v w : ℕ)
    → v < m
    → w < m
    → ◌≡◌ {A = Outcome AddressError Bool}
        (if x == y then ok (ltb v w) else ok (ltb x y))
        (ok (ltb (x * m + v) (y * m + w)))
ltb_digit x y m v w p q = elim (lt_cases x y) [
  | inl lt ↦ ground (arith, digit_lt x y m v w p lt)
  | inr (inl e) ↦ rw e (ground arith)
  | inr (inr gt) ↦ ground (arith, digit_lt y x m w v q gt)
]

less_bytes_lem :
    (xs ys : Bytes)
    → AllBytes xs
    → AllBytes ys
    → length xs ≡ length ys
    → less_bytes xs ys ≡ ok (ltb (value xs) (value ys))
unfolding less_bytes
less_bytes_lem [] [] p q h = refl
less_bytes_lem [] (y ∷ ys) p q h = absurd (omega arith)
less_bytes_lem (x ∷ xs) [] p q h = absurd (omega arith)
less_bytes_lem (x ∷ xs) (y ∷ ys) p q h =
    let e : length xs ≡ length ys = omega arith in
    let m = 256 ^ length xs in
    let w : value ys < m = rw e (value-lt-pow ys q.1) in
    rw (less_bytes_lem xs ys p.1 q.1 e, ← e)
      (ltb_digit x y m (value xs) (value ys) (value-lt-pow xs p.1) w)

-- On addresses of one length, `Less` never panics and decides the order of the numbers that the
-- raw bytes write.
pub less-ltb-value :
    (a b : Address)
    → AllBytes a.raw
    → AllBytes b.raw
    → length a.raw ≡ length b.raw
    → less a b ≡ ok (ltb (value a.raw) (value b.raw))
unfolding less
less-ltb-value a b p q h = less_bytes_lem a.raw b.raw p q h
