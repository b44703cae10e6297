-- ===== src/Util/Limiter.antt =====
-- util/limiter.go: a bucket of tokens. The channel `Throttle` holds at most `burst` of them, a
-- goroutine adds one for a tick if there is room, and a caller waits for one. What the goroutines
-- and the callers do is a relation of steps in any order.
use dfi.Prelude.{
  ℕ, suc, ◌+◌, ◌≤◌, ◌<◌, ◌≡◌, refl, ◌∙◌, arith, Bool, true, false, List, [], ◌∷◌, ltb,
  if◌then◌else◌, ◌⊎◌, inl, inr, Bool-cases,
}

-- The tokens in `Throttle` and its capacity; whether a tick waits in the ticker's channel, which
-- holds one; whether the ticker runs; whether `Stop` waits to send to `quit`; and whether the
-- goroutine has taken that and ended.
pub record Limiter : Type 0 where
  pub tokens : ℕ
  pub burst : ℕ
  pub pending : Bool
  pub ticking : Bool
  pub stopping : Bool
  pub ended : Bool

-- `NewLimiter`
unfoldable pub new_limiter : ℕ → Bool → Limiter
new_limiter burst fill = record {
  tokens = if fill then burst else 0;
  burst = burst;
  pending = false;
  ticking = true;
  stopping = false;
  ended = false;
}

-- The goroutine takes a tick: a full channel gets no token.
unfoldable pub refill : Limiter → Limiter
refill l =
    if ltb l.tokens l.burst
    then record l { tokens = l.tokens + 1; pending = false }
    else record l { pending = false }

pub data Event : Type 0 where
  fired refilled quitted waited stop_called : Event

-- The `select` takes its default only if `Stop` does not wait. A `Wait` on the channel that `Stop` has
-- closed gets no token and is no step here.
pub data Step : Limiter → Event → Limiter → Type 0 where
  step_fire : (l : Limiter) → l.ticking ≡ true → Step l fired (record l { pending = true })
  step_refill :
      (l : Limiter)
      → l.pending ≡ true
      → l.ended ≡ false
      → (l.stopping ≡ false) ⊎ (l.tokens < l.burst)
      → Step l refilled (refill l)
  step_quit :
      (l : Limiter)
      → l.pending ≡ true
      → l.stopping ≡ true
      → l.ended ≡ false
      → Step l quitted (record l { pending = false; ended = true })
  step_wait : (l : Limiter) (n : ℕ) → l.tokens ≡ suc n → Step l waited (record l { tokens = n })
  step_stop : (l : Limiter) → Step l stop_called (record l { ticking = false; stopping = true })

pub data Run : Limiter → List Event → Limiter → Type 0 where
  run_nil : (l : Limiter) → Run l [] l
  run_cons :
      {l m n : Limiter} {e : Event} {es : List Event} → Step l e m → Run m es n → Run l (e ∷ es) n

-- How often a caller got a token, and how often the goroutine took a tick.
unfoldable pub waits : List Event → ℕ
waits [] = 0
waits (fired ∷ es) = waits es
waits (refilled ∷ es) = waits es
waits (quitted ∷ es) = waits es
waits (waited ∷ es) = waits es + 1
waits (stop_called ∷ es) = waits es

unfoldable pub refills : List Event → ℕ
refills [] = 0
refills (fired ∷ es) = refills es
refills (refilled ∷ es) = refills es + 1
refills (quitted ∷ es) = refills es
refills (waited ∷ es) = refills es
refills (stop_called ∷ es) = refills es

refill_bounds :
    (l : Limiter)
    → l.tokens ≤ l.burst
    → ((refill l).burst ≡ l.burst)
      × ((refill l).tokens ≤ l.tokens + 1)
      × ((refill l).tokens ≤ l.burst)
unfolding refill
refill_bounds l h = elim (Bool-cases (ltb l.tokens l.burst)) [
  | inl room ↦ rw room (refl, omega arith, ground arith)
  | inr full ↦ rw full (refl, omega arith, h)
]

Run-bounds :
    {l m : Limiter} {es : List Event}
    → Run l es m
    → l.tokens ≤ l.burst
    → (m.burst ≡ l.burst) × (m.tokens ≤ m.burst) × (m.tokens + waits es ≤ l.tokens + refills es)
unfolding waits refills
Run-bounds (run_nil l) h = (refl, h, omega arith)
Run-bounds (run_cons (step_fire l t) run) h = Run-bounds run h
Run-bounds (run_cons (step_refill l p e s) run) h =
    let (same, more, kept) = refill_bounds l h in
    let (b, t, w) = Run-bounds run (omega (arith, same, kept)) in
    (b ∙ same, t, omega (arith, w, more))
Run-bounds (run_cons (step_quit l p s e) run) h = Run-bounds run h
Run-bounds (run_cons (step_wait l n e) run) h =
    let (b, t, w) = Run-bounds run (omega (arith, e, h)) in (b, t, omega (arith, w, e))
Run-bounds (run_cons (step_stop l) run) h = Run-bounds run h

-- In any run of a new limiter the channel never holds more than `burst` tokens, and the calls of
-- `Wait` that got a token are at most `burst` and one for each tick that the goroutine took.
pub Run-waits :
    (burst : ℕ) (fill : Bool) (es : List Event) (l : Limiter)
    → Run (new_limiter burst fill) es l
    → (l.tokens ≤ burst) × (waits es ≤ burst + refills es)
unfolding new_limiter
Run-waits burst true es l run =
    let (b, t, w) = Run-bounds run (omega arith) in (omega (arith, b, t), omega (arith, w))
Run-waits burst false es l run =
    let (b, t, w) = Run-bounds run (omega arith) in (omega (arith, b, t), omega (arith, w))

-- Where `Stop` is called while no tick waits in the ticker's channel, the goroutine never takes
-- what `Stop` sends and never ends, whatever happens after the call.
pub Run-stuck :
    (l m : Limiter) (es : List Event)
    → Run (record l { ticking = false; stopping = true }) es m
    → l.pending ≡ false
    → l.ended ≡ false
    → m.ended ≡ false
Run-stuck l m es run p e = stuck run refl p ∙ e
  where
    no : {b : Bool} → b ≡ false → b ≡ true → ⊥
    no h k = cc

    stuck :
        {l m : Limiter} {es : List Event}
        → Run l es m
        → l.ticking ≡ false
        → l.pending ≡ false
        → m.ended ≡ l.ended
    stuck (run_nil l) t p = refl
    stuck (run_cons (step_fire l k) run) t p = absurd (no t k)
    stuck (run_cons (step_refill l k e s) run) t p = absurd (no p k)
    stuck (run_cons (step_quit l k s e) run) t p = absurd (no p k)
    stuck (run_cons (step_wait l n e) run) t p = stuck run t p
    stuck (run_cons (step_stop l) run) t p = stuck run refl p
