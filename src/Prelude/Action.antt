-- ===== src/Prelude/Action.antt =====
-- Methods of a mutable object: what a call comes to, and the state that it leaves. What was
-- written before an error stays written.
use mathlib.Core.Bool.{Bool, true, false}
use mathlib.Core.Path.{◌≡◌, refl}
use dfi.Prelude.Outcome.{Outcome, ok, err, panic}
use dfi.Prelude.Booleans.{if◌then◌else◌}

abbrev pub Action : Type 0 → Type 0 → Type 0 → Type 0
Action S E A = S → Outcome E A × S

module _ {S E A : Type 0} where
  abbrev pub pure : A → Action S E A
  pure a s = (ok a, s)

  abbrev pub lift : Outcome E A → Action S E A
  lift o s = (o, s)

module _ {S E A B : Type 0} where
  abbrev pub continue : Outcome E A → (A → Action S E B) → Action S E B
  continue (ok a) f s = f a s
  continue (err e) f s = (err e, s)
  continue panic f s = (panic, s)

  infixl 5 ◌>>=◌ ◌>>◌
  abbrev pub ◌>>=◌ : Action S E A → (A → Action S E B) → Action S E B
  ◌>>=◌ m f s = let (o, s') = m s in continue o f s'

  abbrev pub ◌>>◌ : Action S E A → Action S E B → Action S E B
  m >> k = m >>= λ _. k

  -- `if err != nil { … }` on the outcome of a call: an error is handled, a panic is not.
  abbrev pub recover : Outcome E A → (A → Action S E B) → (E → Action S E B) → Action S E B
  recover (ok a) f g s = f a s
  recover (err e) f g s = g e s
  recover panic f g s = (panic, s)

  abbrev pub attempt : Action S E A → (A → Action S E B) → (E → Action S E B) → Action S E B
  attempt m f g s = let (o, s') = m s in recover o f g s'

abbrev pub map_err : {D E A : Type 0} → (D → E) → Outcome D A → Outcome E A
map_err f (ok a) = ok a
map_err f (err e) = err (f e)
map_err f panic = panic

-- A method of a part of the object, whose errors are passed on under a name of their own.
abbrev pub within :
    {S T D E A : Type 0} → (T → S) → (S → T → T) → (D → E) → Action S D A → Action T E A
within get put f m t = let (o, s) = m (get t) in (map_err f o, put s t)

-- `defer`: the last call is made however the first one ends, and its own outcome is lost.
abbrev pub deferred : {S D E A B : Type 0} → Action S E A → Action S D B → Action S E A
deferred m last s = let (o, s') = m s in (o, (last s').1)

-- `m` keeps `P`, whether it returns, fails or panics.
pub record Keeps {S E A : Type 0} (P : S → Type 0) (m : Action S E A) : Type 0 where
  pub at : (s : S) → P s → P (m s).1

module _ {S E A : Type 0} {P : S → Type 0} where
  pub Keeps-pure : (a : A) → Keeps {E = E} P (pure a)
  Keeps-pure a = record { at = λ s h. h }

  pub Keeps-lift : (o : Outcome E A) → Keeps P (lift o)
  Keeps-lift o = record { at = λ s h. h }

module _ {S E A B : Type 0} {P : S → Type 0} where
  pub continue-keeps :
      (o : Outcome E A) (f : A → Action S E B) (s : S)
      → ((a : A) → Keeps P (f a))
      → P s
      → P (continue o f s).1
  continue-keeps (ok a) f s k h = (k a).at s h
  continue-keeps (err e) f s k h = h
  continue-keeps panic f s k h = h

  pub Keeps-bind :
      {m : Action S E A} {f : A → Action S E B}
      → Keeps P m
      → ((a : A) → Keeps P (f a))
      → Keeps P (m >>= f)
  Keeps-bind {m} {f} k l = record { at = λ s h. continue-keeps (m s).0 f (m s).1 l (k.at s h) }

  pub recover-keeps :
      (o : Outcome E A) (f : A → Action S E B) (g : E → Action S E B) (s : S)
      → ((a : A) → Keeps P (f a))
      → ((e : E) → Keeps P (g e))
      → P s
      → P (recover o f g s).1
  recover-keeps (ok a) f g s k l h = (k a).at s h
  recover-keeps (err e) f g s k l h = (l e).at s h
  recover-keeps panic f g s k l h = h

  pub Keeps-attempt :
      {m : Action S E A} {f : A → Action S E B} {g : E → Action S E B}
      → Keeps P m
      → ((a : A) → Keeps P (f a))
      → ((e : E) → Keeps P (g e))
      → Keeps P (attempt m f g)
  Keeps-attempt {m} {f} {g} k l r = record {
    at = λ s h. recover-keeps (m s).0 f g (m s).1 l r (k.at s h);
  }

module _ {S E A : Type 0} {P : S → Type 0} where
  pub Keeps-if :
      (b : Bool) {m n : Action S E A} → Keeps P m → Keeps P n → Keeps P (if b then m else n)
  Keeps-if true k l = k
  Keeps-if false k l = l

module _ {S T D E A : Type 0} {P : S → Type 0} {Q : T → Type 0} where
  pub Keeps-within :
      (get : T → S) (put : S → T → T) (f : D → E) (m : Action S D A)
      → ((t : T) → Q t → P (get t))
      → ((s : S) (t : T) → P s → Q t → Q (put s t))
      → Keeps P m
      → Keeps Q (within get put f m)
  Keeps-within get put f m take give k = record {
    at = λ t h. give (m (get t)).1 t (k.at (get t) (take t h)) h;
  }

-- A call that returns has gone on from the value of its first step.
module _ {S E A B : Type 0} where
  pub continue-ok :
      (o : Outcome E A) (f : A → Action S E B) (s : S) (b : B)
      → (continue o f s).0 ≡ ok b
      → (a : A) × (o ≡ ok a) × ((f a s).0 ≡ ok b) × (continue o f s ≡ f a s)
  continue-ok (ok a) f s b h = (a, refl, h, refl)
  continue-ok (err e) f s b h = cc
  continue-ok panic f s b h = cc
