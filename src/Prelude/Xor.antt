-- ===== src/Prelude/Xor.antt =====
-- Laws of the exclusive or, from the recursion on binary digits that the native operation stands for.
use Prim.Native.Nat.{
  ℕ, zero, suc, ◌+◌, ◌*◌, ◌/◌, ◌%◌, ◌^◌, ◌≤◌, ◌<◌, bit_xor, digits, differ, bit_xor-bitwise,
}
use mathlib.Core.Path.{◌≡◌, refl}
use native.Mathlib.Nat.{pow-suc}
use native.Mathlib.Omega.{arith}

abbrev xor_digits : ℕ → ℕ → ℕ → ℕ
xor_digits n a b = digits (λ b. b) differ n a b

differ_digit : (x y : ℕ) → x < 2 → y < 2 → differ x y ≡ (x + y) % 2
differ_digit zero y p q = omega arith
differ_digit (suc zero) zero p q = omega arith
differ_digit (suc zero) (suc zero) p q = refl
differ_digit (suc zero) (suc (suc y)) p q = absurd (omega arith)
differ_digit (suc (suc x)) y p q = absurd (omega arith)

xor_digits_fuel : (n m a b : ℕ) → a ≤ n → a ≤ m → xor_digits n a b ≡ xor_digits m a b
xor_digits_fuel zero zero a b p q = refl
xor_digits_fuel zero (suc m) zero b p q = refl
xor_digits_fuel zero (suc m) (suc a) b p q = absurd (omega arith)
xor_digits_fuel (suc n) zero zero b p q = refl
xor_digits_fuel (suc n) zero (suc a) b p q = absurd (omega arith)
xor_digits_fuel (suc n) (suc m) zero b p q = refl
xor_digits_fuel (suc n) (suc m) (suc a) b p q =
    omega (arith, xor_digits_fuel n m (suc a / 2) (b / 2) (omega arith) (omega arith))

pub zero-bit_xor : (b : ℕ) → bit_xor 0 b ≡ b
zero-bit_xor b = bit_xor-bitwise 0 b

pub bit_xor_step : (a b : ℕ) → bit_xor a b ≡ bit_xor (a / 2) (b / 2) * 2 + (a + b) % 2
bit_xor_step zero b = omega (arith, zero-bit_xor b, zero-bit_xor (b / 2))
bit_xor_step (suc a) b = omega (
  arith,
  bit_xor-bitwise (suc a) b,
  bit_xor-bitwise (suc a / 2) (b / 2),
  xor_digits_fuel a (suc a / 2) (suc a / 2) (b / 2) (omega arith) (omega arith),
  differ_digit (suc a % 2) (b % 2) (omega arith) (omega arith),
)

xor_self_fuel : (n a : ℕ) → a ≤ n → bit_xor a a ≡ 0
xor_self_fuel n zero h = zero-bit_xor 0
xor_self_fuel zero (suc a) h = absurd (omega arith)
xor_self_fuel (suc n) (suc a) h =
    omega (arith, bit_xor_step (suc a) (suc a), xor_self_fuel n (suc a / 2) (omega arith))

pub bit_xor_self : (a : ℕ) → bit_xor a a ≡ 0
bit_xor_self a = xor_self_fuel a a (omega arith)

xor_comm_fuel : (n a b : ℕ) → a + b ≤ n → bit_xor a b ≡ bit_xor b a
xor_comm_fuel n zero zero h = refl
xor_comm_fuel zero a b h =
    let p : a ≡ 0 = omega arith in let q : b ≡ 0 = omega arith in rw (p, q) refl
xor_comm_fuel (suc n) a b h =
    omega (arith, bit_xor_step a b, bit_xor_step b a, xor_comm_fuel n (a / 2) (b / 2) (omega arith))

pub bit_xor_comm : (a b : ℕ) → bit_xor a b ≡ bit_xor b a
bit_xor_comm a b = xor_comm_fuel (a + b) a b (omega arith)

xor_cancel_fuel : (n a b : ℕ) → a ≤ n → bit_xor a (bit_xor a b) ≡ b
xor_cancel_fuel n zero b h = omega (arith, zero-bit_xor b, zero-bit_xor (bit_xor 0 b))
xor_cancel_fuel zero (suc a) b h = absurd (omega arith)
xor_cancel_fuel (suc n) (suc a) b h =
    let half : bit_xor (suc a) b / 2 ≡ bit_xor (suc a / 2) (b / 2) =
      omega (arith, bit_xor_step (suc a) b) in
    let step : bit_xor (suc a / 2) (bit_xor (suc a) b / 2) ≡ b / 2 =
      rw half (xor_cancel_fuel n (suc a / 2) (b / 2) (omega arith)) in
    omega (arith, bit_xor_step (suc a) b, bit_xor_step (suc a) (bit_xor (suc a) b), step)

-- The other number is read back by a second exclusive or.
pub bit_xor_cancel : (a b : ℕ) → bit_xor a (bit_xor a b) ≡ b
bit_xor_cancel a b = xor_cancel_fuel a a b (omega arith)

xor_triangle_fuel : (n a b c : ℕ) → a + b + c ≤ n → bit_xor a c ≤ bit_xor a b + bit_xor b c
xor_triangle_fuel zero a b c h =
    let p : a ≡ 0 = omega arith in
    let q : b ≡ 0 = omega arith in
    let r : c ≡ 0 = omega arith in rw (p, q, r) (omega (arith, zero-bit_xor 0))
xor_triangle_fuel (suc n) zero zero zero h = omega (arith, zero-bit_xor 0)
xor_triangle_fuel (suc n) a b c h = omega (
  arith,
  bit_xor_step a c,
  bit_xor_step a b,
  bit_xor_step b c,
  xor_triangle_fuel n (a / 2) (b / 2) (c / 2) (omega arith),
)

pub bit_xor_triangle : (a b c : ℕ) → bit_xor a c ≤ bit_xor a b + bit_xor b c
bit_xor_triangle a b c = xor_triangle_fuel (a + b + c) a b c (omega arith)

xor_below : (k m a b : ℕ) → a < 2 ^ k → b < 2 ^ k → m ≡ 2 ^ k → bit_xor a b < m
xor_below zero m a b p q e =
    let x : a ≡ 0 = omega arith in
    let y : b ≡ 0 = omega arith in rw (x, y) (omega (arith, zero-bit_xor 0))
xor_below (suc k) m a b p q e = omega (
  arith,
  pow-suc 2 k,
  bit_xor_step a b,
  xor_below k (2 ^ k) (a / 2) (b / 2) (omega (arith, pow-suc 2 k)) (omega (arith, pow-suc 2 k))
      refl,
)

-- The exclusive or of two bytes is a byte.
pub bit_xor-byte : (a b : ℕ) → a < 256 → b < 256 → bit_xor a b < 256
bit_xor-byte a b p q = xor_below 8 256 a b p q refl
