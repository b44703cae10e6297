-- ===== src/Prelude/Outcome.antt =====
-- What a Go function call comes to: a value, an error value, or a run-time panic.
use mathlib.Core.Option.{Option, none, some}
use mathlib.Core.Bool.{Bool, true, false}

pub data Outcome (E A : Type 0) : Type 0 where
  ok : A → Outcome E A
  err : E → Outcome E A
  panic : Outcome E A

module _ {E A B : Type 0} where
  infixl 5 ◌>>=◌ ◌>>◌
  abbrev pub ◌>>=◌ : Outcome E A → (A → Outcome E B) → Outcome E B
  ok a >>= f = f a
  err e >>= f = err e
  panic >>= f = panic

  abbrev pub ◌>>◌ : Outcome E A → Outcome E B → Outcome E B
  m >> k = m >>= λ _. k

module _ {E : Type 0} where
  -- `if cond { return e }`
  abbrev pub return_if : Bool → E → Outcome E (Unit {0})
  return_if true e = err e
  return_if false e = ok tt

  -- An index expression panics out of range.
  abbrev pub or_panic : {A : Type 0} → Option A → Outcome E A
  or_panic none = panic
  or_panic (some a) = ok a
