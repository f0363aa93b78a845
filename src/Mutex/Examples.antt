-- ===== src/Mutex/Examples.antt =====
-- Tests of src/b_mutex_cond.cc.
use b_routine.Base.{Bool, true, false, some, ◌≡◌, refl, none, [], ◌∷◌, arith}
use b_routine.Mutex.{Mutex, unlock, acquired, parked, lock_round}
use b_routine.Mutex.System.{
  System, inside, outside, asleep, trying, Step, call, call_again, try, leave, Reach, here, next,
  start, put,
}
use b_routine.Mutex.System.Overlap.{Reach-two_inside}
use b_routine.Mutex.System.Queued.{IsQueued, Reach-IsQueued}

-- A mutex that is held and that routine 7 waits for.
abbrev held : Mutex
held = record { lock_count = 1; waiting = 7 ∷ [] }

Reach-two_inside_example :
    (s : System) × (t : System) × Reach false (start 0) s
    × (s.phase 2 ≡ inside)
    × (s.phase 3 ≡ inside)
    × Step false s t
    × (t.phase 3 ≡ inside)
    × (unlock t.mutex ≡ none)
Reach-two_inside_example = Reach-two_inside 1 2 3 (omega arith) (omega arith) (omega arith)

infixl 4 ◌▷◌
abbrev ◌▷◌ :
    {nested : Bool} {s t u : System} → Reach nested s t → Step nested t u → Reach nested s u
r ▷ st = next r st

-- On a mutex with the counter at 0, routine 1 goes inside, 2 and 3 park, 1 leaves, which makes 2 ready,
-- 4 goes inside, calls `lock` again and parks too.
abbrev crowd : System
crowd = record {
  mutex = record { lock_count = 1; waiting = 3 ∷ 4 ∷ [] };
  ready = 2 ∷ [];
  phase =
      put
        (put
          (put
            (put
              (put
                (put
                  (put
                    (put (put (put (put (start 0).phase 1 (trying 0)) 1 inside) 2 (trying 0)) 2
                      (asleep 1))
                    3 (trying 0))
                  3 (asleep 1))
                1 outside)
              4 (trying 0))
            4 inside)
          4 (trying 0))
        4 (asleep 1);
}

crowd_run : Reach true (start 0) crowd
unfolding lock_round unlock
crowd_run =
    here
    ▷ call 1 refl
    ▷ try 1 0 acquired (record { lock_count = 1; waiting = [] }) refl refl
    ▷ call 2 refl
    ▷ try 2 0 (parked 1) (record { lock_count = 1; waiting = 2 ∷ [] }) refl refl
    ▷ call 3 refl
    ▷ try 3 0 (parked 1) (record { lock_count = 1; waiting = 2 ∷ 3 ∷ [] }) refl refl
    ▷ leave 1 (some 2) (record { lock_count = 0; waiting = 3 ∷ [] }) refl refl
    ▷ call 4 refl
    ▷ try 4 0 acquired (record { lock_count = 1; waiting = 3 ∷ [] }) refl refl
    ▷ call_again 4 refl refl
    ▷ try 4 0 (parked 1) (record { lock_count = 1; waiting = 3 ∷ 4 ∷ [] }) refl refl

Reach-IsQueued_example : IsQueued 0 crowd
Reach-IsQueued_example = Reach-IsQueued {count = 0} {nested = true} {s = crowd} crowd_run
