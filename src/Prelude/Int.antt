-- ===== src/Prelude/Int.antt =====
-- Go's signed integers, over the native numbers.
use Prim.Native.Nat.{ℕ, ◌+◌, ◌-◌, ◌*◌, ◌%◌, ◌^◌}
use dfi.Prelude.Booleans.{ltb, if◌then◌else◌}

-- `negsuc n` is -(n + 1).
pub data ℤ : Type 0 where
  pos : ℕ → ℤ
  negsuc : ℕ → ℤ

-- An `int` as a word of 64 bits.
abbrev pub word : ℤ → ℕ
word (pos n) = n % 2 ^ 64
word (negsuc n) = 2 ^ 64 - 1 - n % 2 ^ 64

-- The word as a signed number.
abbrev pub of_word : ℕ → ℤ
of_word w = if ltb w (2 ^ 63) then pos w else negsuc (2 ^ 64 - 1 - w)

-- `+` and `*` on `int`, which wrap around.
abbrev pub int_add : ℤ → ℤ → ℤ
int_add a b = of_word ((word a + word b) % 2 ^ 64)

abbrev pub int_mul : ℤ → ℤ → ℤ
int_mul a b = of_word ((word a * word b) % 2 ^ 64)
