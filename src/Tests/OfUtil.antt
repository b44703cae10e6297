-- ===== src/Tests/OfUtil.antt =====
-- The package util.
use dfi.Prelude.{◌+◌, ◌≡◌, ◌≤◌, refl, true, false, List, [], ◌∷◌, inl}
use dfi.Util.Limiter.{
  Limiter, new_limiter, refill, Event, fired, refilled, waited, step_fire, step_refill, step_wait,
  Run, run_nil, run_cons, waits, refills, Run-waits, Run-stuck,
}
use dfi.Util.Slices.{slice_diff, difference, slice_diff-difference}

abbrev events : List Event
events = waited ∷ fired ∷ refilled ∷ waited ∷ []

abbrev after_events : Limiter
after_events = record {
  tokens = 2;
  burst = 3;
  pending = false;
  ticking = true;
  stopping = false;
  ended = false;
}

run : Run (new_limiter 3 true) events after_events
unfolding new_limiter refill
run = run_cons (step_wait (new_limiter 3 true) 2 refl) (
    run_cons (step_fire (record after_events { tokens = 2 }) refl) (
      run_cons
        (step_refill (record after_events { tokens = 2; pending = true }) refl refl (inl refl))
        (run_cons (step_wait (record after_events { tokens = 3 }) 2 refl) (run_nil after_events))))

Run-waits_example : (2 ≤ 3) × (waits events ≤ 3 + refills events)
Run-waits_example = Run-waits 3 true events after_events run

abbrev stuck : Limiter
stuck = record after_events { tokens = 1; ticking = false; stopping = true }

stopped-Run : Run (record after_events { ticking = false; stopping = true }) (waited ∷ []) stuck
stopped-Run =
    run_cons (step_wait (record after_events { ticking = false; stopping = true }) 1 refl)
      (run_nil stuck)

run_stuck_case : stuck.ended ≡ false
run_stuck_case = Run-stuck after_events stuck (waited ∷ []) stopped-Run refl refl

slice_diff-difference_case :
    slice_diff ((1 ∷ []) ∷ []) ((1 ∷ []) ∷ (2 ∷ []) ∷ (2 ∷ []) ∷ [])
    ≡ difference ((1 ∷ []) ∷ []) ((1 ∷ []) ∷ (2 ∷ []) ∷ (2 ∷ []) ∷ [])
slice_diff-difference_case =
    slice_diff-difference ((1 ∷ []) ∷ []) ((1 ∷ []) ∷ (2 ∷ []) ∷ (2 ∷ []) ∷ [])
