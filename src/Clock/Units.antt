-- ===== src/Clock/Units.antt =====
-- The units of `bRoutineEnv::Timer` (src/b_routine_env.cc) agree.
use b_routine.Base.{◌/◌, ◌≤◌, ◌<◌, ◌≡◌, ◌⊎◌, arith}
use b_routine.Clock.{Timeval, Timespec, get_now_us, get_now_ms, get_now_ns, get_now_s}

-- The time `b` is not before the time `a`.
abbrev pub Later : Timeval → Timeval → Type 0
Later a b = (a.sec < b.sec) ⊎ ((a.sec ≡ b.sec) × (a.usec ≤ b.usec))

-- Readings of one moment agree, each rounded down to its unit; and where the system's clock does not
-- go back, neither does the number of milliseconds. The microseconds of a reading are below a million.
pub get_now_ms-units :
    (a b : Timeval) (ts : Timespec)
    → a.usec < 1000000
    → b.usec < 1000000
    → Later a b
    → ts.seconds ≡ a.sec
    → ts.nsec / 1000 ≡ a.usec
    → (get_now_ms a ≡ get_now_us a / 1000)
      × (get_now_us a ≡ get_now_ns ts / 1000)
      × (get_now_s a.sec ≡ get_now_ms a / 1000)
      × (get_now_ms a ≤ get_now_ms b)
      × (get_now_us a ≤ get_now_us b)
unfolding get_now_us get_now_ms get_now_ns
get_now_ms-units a b ts small small' later seconds micros =
    (ground arith, ground arith, ground arith, ground arith, ground arith)
