-- ===== src/Scheduler/Rounds.antt =====
-- Switching between ready routines (src/b_scheduler.cc, src/b_routine.cc).
use b_routine.Base.{ℕ, ◌≡◌, ◌⊎◌, true, false, ◌&&◌, [], ◌∷◌, ◌++◌, none, some, arith}
use b_routine.Scheduler.{World, swap_context, resume}

-- `Resume` makes the target ready first and the caller behind it, and hands the thread to the
-- pending routine; if the routine of either task is a scheduler's own, it throws.
pub resume_lem :
    (target : ℕ) (w : World)
    → (((w.routine target).is_progress ≡ false)
        → (w.routine w.occupy).is_progress ≡ false
        → resume target w
          ≡ some (record w {
            ready = (w.ready ++ target ∷ []) ++ w.occupy ∷ [];
            occupy = w.pending;
            pending = w.occupy;
          }))
      × (((w.routine target).is_progress ≡ true) ⊎ ((w.routine w.occupy).is_progress ≡ true)
          → resume target w ≡ none)
unfolding resume
resume_lem target w = (λ a b. ground arith, λ a. ground arith)

-- The first switch away from the main routine makes it an ordinary routine that is ready; a switch
-- away from any other changes no flag and no ready list. Two switches in a row give the thread back.
pub swap_context_lem :
    (w : World)
    → (((w.routine w.occupy).is_main ≡ true)
        → (w.routine w.occupy).is_progress ≡ true
        → ((swap_context w).ready ≡ w.ready ++ w.occupy ∷ [])
          × (((swap_context w).routine w.occupy).is_progress ≡ false))
      × (((w.routine w.occupy).is_main && (w.routine w.occupy).is_progress) ≡ false
          → ((w.routine w.pending).is_main && (w.routine w.pending).is_progress) ≡ false
          → swap_context (swap_context w) ≡ w)
unfolding swap_context
swap_context_lem w = (λ a b. ground arith, λ a b. ground arith)
