-- ===== src/Clock/Examples.antt =====
-- Tests of the clock (src/b_routine_env.cc).
use b_routine.Base.{◌≡◌, refl}
use b_routine.Clock.{get_now_ms}

half_past : get_now_ms (record { sec = 3; usec = 1999 }) ≡ 3001
unfolding get_now_ms
half_past = refl
