-- ===== src/Deal/Polls.antt =====
-- A call of the hooked `poll` (src/b_hook.cc) from its start through a pass of `Deal`
-- (src/b_routine_env.cc) to what it returns.
use b_routine.Base.{
  ℕ, ◌+◌, ◌^◌, ◌<◌, ◌≡◌, ap, ◌∙◌, leb, ltb, ◌&&◌, List, arith, ◌==◌, if◌then◌else◌, times, some,
}
use native.Mathlib.Nat.{mod-eq_of_lt}
use b_routine.Hooks.{pos}
use b_routine.Wheel.{get_bucket, push_task}
use b_routine.Wheel.Merge.{IsRunning}
use b_routine.Wheel.Fires.{get_bucket-add}
use b_routine.Poll.{u64, PollFd, Event, poll_begin, poll_end, to_int}
use b_routine.Poll.Batch.{events_of, IsWaiting}
use b_routine.Poll.Begin.{poll_begin-IsWaiting}
use b_routine.Deal.{Env, deal}
use b_routine.Deal.Once.{deal-Served}

-- The environment in which the call has begun to wait.
abbrev pub polling : Env → (m : ℕ) → List PollFd → (ms : ℕ) → Env
polling e m fds ms = record e { shared = poll_begin m fds (pos ms) e.shared }

passes-leb : (p ms d : ℕ) → 0 < ms → (leb (p + 1) (p + ms) && ltb (p + ms) (p + 1 + d)) ≡ leb ms d
passes-leb p ms d h = ground arith

bucket_of :
    (e : Env) (ms now : ℕ)
    → IsRunning e.shared.timer now
    → e.shared.timer.bucket_pos_now + ms < e.shared.timer.bucket_size
    → get_bucket e.shared.timer ms ≡ e.shared.timer.bucket_pos_now + ms
bucket_of e ms now r h = get_bucket-add e.shared.timer ms now r (omega arith) ∙ mod-eq_of_lt h

-- A call of `poll` that has begun to wait for `ms` milliseconds, at least one, is made ready in a
-- pass `d` milliseconds behind the wheel's last check exactly once if it has an event or if `ms` is
-- at most `d`, and not at all otherwise. It returns the number of its events, narrowed to an `int`. The task
-- is in no bucket before the call, the events of the pass are all for waiting calls, and the wheel
-- stays short of the end of its array until the pass and until the timeout. The clock has not gone
-- back, no call has 2^64 - 1 events or more, and there is fuel for each millisecond.
pub deal-poll_begin :
    (e : Env) (es : List Event) (fds : List PollFd) (ms now now' d fuel m : ℕ)
    → 0 < ms
    → e.shared.timer.bucket_pos_now + ms < e.shared.timer.bucket_size
    → e.shared.timer.bucket_size < 2 ^ 63
    → ((j : ℕ) → times m (e.shared.timer.bucket j) ≡ 0)
    → ((n : ℕ) → 0 < events_of n es → (c : ℕ) × IsWaiting (polling e m fds ms).shared n c)
    → ((n : ℕ) → events_of n es + 1 < u64)
    → IsRunning e.shared.timer now
    → now ≡ e.shared.timer.last_check_time + d
    → e.shared.timer.bucket_pos_now + d + 1 < e.shared.timer.bucket_size
    → d < fuel
    → (v : Env) × (deal fuel (some es) now now' (polling e m fds ms) ≡ some v)
      × (times m v.shared.ready
          ≡ times m e.shared.ready
            + (if events_of m es == 0 then (if leb ms d then 1 else 0) else 1))
      × ((poll_end m v.shared).0 ≡ to_int (events_of m es))
unfolding poll_begin push_task
deal-poll_begin e es fds ms now now' d fuel m some_time near small fresh waiting few r clock room
      enough =
    let w = e.shared in
    let at = (poll_begin-IsWaiting m fds (pos ms) now w r small fresh).0 in
    let (v, run, served, _) =
      deal-Served (polling e m fds ms) es now now' d fuel m (get_bucket w.timer ms) waiting few
        (record {
          pos_lt = r.pos_lt;
          size_small = r.size_small;
          clock = r.clock;
          now_small = r.now_small;
        })
        clock room enough at in
    let due =
      ap (λ b. leb (w.timer.bucket_pos_now + 1) b && ltb b (w.timer.bucket_pos_now + 1 + d))
        (bucket_of e ms now r near)
      ∙ passes-leb w.timer.bucket_pos_now ms d some_time in
    (
      v,
      run,
      served.ready
          ∙ ap (λ p. times m w.ready + (if events_of m es == 0 then (if p then 1 else 0) else 1))
              due,
      served.returns,
    )
