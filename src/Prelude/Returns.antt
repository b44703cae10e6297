-- ===== src/Prelude/Returns.antt =====
-- What holds of the value that a method returns, if it returns one.
use mathlib.Core.Path.{◌≡◌, subst}
use mathlib.Core.Bool.{Bool, true, false}
use dfi.Prelude.Booleans.{if◌then◌else◌}
use dfi.Prelude.Outcome.{Outcome, ok, err, panic}
use dfi.Prelude.Action.{Action, pure, continue, recover, attempt, ◌>>=◌}

abbrev pub OfValue : {E A : Type 0} → (A → Type 0) → Outcome E A → Type 0
OfValue P (ok a) = P a
OfValue P (err e) = Unit
OfValue P panic = Unit

pub record Returns {S E A : Type 0} (P : A → Type 0) (m : Action S E A) : Type 0 where
  pub at : (s : S) → OfValue P (m s).0

module _ {S E A : Type 0} {P : A → Type 0} where
  pub Returns-pure : (a : A) → P a → Returns {S = S} {E = E} P (pure a)
  Returns-pure a h = record { at = λ s. h }

  pub Returns-if :
      (b : Bool) {m n : Action S E A} → Returns P m → Returns P n → Returns P (if b then m else n)
  Returns-if true k l = k
  Returns-if false k l = l

  pub Returns-ok : {m : Action S E A} → Returns P m → (s : S) (a : A) → (m s).0 ≡ ok a → P a
  Returns-ok h s a e = subst (OfValue P) e (h.at s)

module _ {S E A B : Type 0} {Q : B → Type 0} where
  continue-Returns :
      (o : Outcome E A) (f : A → Action S E B) (s : S)
      → ((a : A) → Returns Q (f a))
      → OfValue Q (continue o f s).0
  continue-Returns (ok a) f s k = (k a).at s
  continue-Returns (err e) f s k = tt
  continue-Returns panic f s k = tt

  -- The value of the first call is any.
  pub Returns-after :
      (m : Action S E A) {f : A → Action S E B} → ((a : A) → Returns Q (f a)) → Returns Q (m >>= f)
  Returns-after m {f} k = record { at = λ s. continue-Returns (m s).0 f (m s).1 k }

  continue-OfValue :
      {P : A → Type 0} (o : Outcome E A) (f : A → Action S E B) (s : S)
      → OfValue P o
      → ((a : A) → P a → Returns Q (f a))
      → OfValue Q (continue o f s).0
  continue-OfValue (ok a) f s h k = (k a h).at s
  continue-OfValue (err e) f s h k = tt
  continue-OfValue panic f s h k = tt

  pub Returns-bind :
      {P : A → Type 0} {m : Action S E A} {f : A → Action S E B}
      → Returns P m
      → ((a : A) → P a → Returns Q (f a))
      → Returns Q (m >>= f)
  Returns-bind {P} {m} {f} h k = record {
    at = λ s. continue-OfValue {P = P} (m s).0 f (m s).1 (h.at s) k;
  }

  recover-Returns :
      (o : Outcome E A) (f : A → Action S E B) (g : E → Action S E B) (s : S)
      → ((a : A) → Returns Q (f a))
      → ((e : E) → Returns Q (g e))
      → OfValue Q (recover o f g s).0
  recover-Returns (ok a) f g s k l = (k a).at s
  recover-Returns (err e) f g s k l = (l e).at s
  recover-Returns panic f g s k l = tt

  pub Returns-attempt :
      (m : Action S E A) {f : A → Action S E B} {g : E → Action S E B}
      → ((a : A) → Returns Q (f a))
      → ((e : E) → Returns Q (g e))
      → Returns Q (attempt m f g)
  Returns-attempt m {f} {g} k l = record { at = λ s. recover-Returns (m s).0 f g (m s).1 k l }

  recover-OfValue :
      {P : A → Type 0} (o : Outcome E A) (f : A → Action S E B) (g : E → Action S E B) (s : S)
      → OfValue P o
      → ((a : A) → P a → Returns Q (f a))
      → ((e : E) → Returns Q (g e))
      → OfValue Q (recover o f g s).0
  recover-OfValue (ok a) f g s h k l = (k a h).at s
  recover-OfValue (err e) f g s h k l = (l e).at s
  recover-OfValue panic f g s h k l = tt

  -- What holds of the first value is known to the rest.
  pub Returns-caught :
      {P : A → Type 0} {m : Action S E A} {f : A → Action S E B} {g : E → Action S E B}
      → Returns P m
      → ((a : A) → P a → Returns Q (f a))
      → ((e : E) → Returns Q (g e))
      → Returns Q (attempt m f g)
  Returns-caught {P} {m} {f} {g} h k l = record {
    at = λ s. recover-OfValue {P = P} (m s).0 f g (m s).1 (h.at s) k l;
  }
