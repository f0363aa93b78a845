-- ===== src/Clock.antt =====
-- The clock of src/b_routine_env.cc: what `gettimeofday`, `clock_gettime` and `time` answer, and the
-- numbers that `bRoutineEnv::Timer` makes of them. The numbers stay far below 2 ^ 63.
pub mod Units
mod Examples
use b_routine.Base.{ℕ, ◌+◌, ◌*◌, ◌/◌}

-- `struct timeval` and `struct timespec`.
pub record Timeval : Type 0 where
  pub sec : ℕ
  pub usec : ℕ

pub record Timespec : Type 0 where
  pub seconds : ℕ
  pub nsec : ℕ

-- `getMicroseconds`, behind `getNow_Us`.
pub get_now_us : Timeval → ℕ
get_now_us tv = tv.sec * 1000000 + tv.usec

-- `getMilliseconds`, behind `getNow_Ms`.
pub get_now_ms : Timeval → ℕ
get_now_ms tv = tv.sec * 1000 + tv.usec / 1000

-- `getNanoseconds`, behind `getNow_Ns`.
pub get_now_ns : Timespec → ℕ
get_now_ns ts = ts.seconds * 1000000000 + ts.nsec

-- `getSeconds`, behind `getNow_S`.
abbrev pub get_now_s : (time : ℕ) → ℕ
get_now_s time = time
