-- ===== src/Poll/Begin.antt =====
-- What a call of the hooked `poll` sets up before it switches away, and what it returns
-- (src/b_hook.cc).
use b_routine.Base.{ℕ, ◌^◌, ◌<◌, ◌≡◌, refl, List, ◌++◌, arith, times}
use b_routine.Hooks.{ℤ, negsuc}
use b_routine.Wheel.{get_bucket}
use b_routine.Wheel.Merge.{IsRunning}
use b_routine.Wheel.Fires.{get_bucket-lt, times-push_task}
use b_routine.Poll.{PollFd, Shared, adds, ms_want, cleared, poll_begin}
use b_routine.Poll.Batch.{IsWaiting}

-- A call of `poll` whose task is in no bucket waits from then on, in the bucket that the timer gives
-- for its timeout; it registers each of its descriptors with epoll and makes nothing ready. A negative
-- timeout, which asks for no limit, is given the bucket of the current position, a turn away.
pub poll_begin-IsWaiting :
    (m : ℕ) (fds : List PollFd) (timeout : ℤ) (now : ℕ) (w : Shared)
    → IsRunning w.timer now
    → w.timer.bucket_size < 2 ^ 63
    → ((j : ℕ) → times m (w.timer.bucket j) ≡ 0)
    → IsWaiting (poll_begin m fds timeout w) m (get_bucket w.timer (ms_want timeout))
      × ((poll_begin m fds timeout w).ctl ≡ w.ctl ++ adds (cleared fds))
      × ((poll_begin m fds timeout w).ready ≡ w.ready)
      × (get_bucket w.timer (ms_want timeout) < w.timer.bucket_size)
      × ((n : ℕ) → get_bucket w.timer (ms_want (negsuc n)) ≡ w.timer.bucket_pos_now)
unfolding poll_begin
poll_begin-IsWaiting m fds timeout now w r small fresh =
    let in_range = get_bucket-lt w.timer (ms_want timeout) now r in
    (
      record {
        owned = ground arith;
        no_events = (ground arith, ground arith);
        not_joined = ground arith;
        not_removed = ground arith;
        once = λ j. times-push_task w.timer (get_bucket w.timer (ms_want timeout)) m j (fresh j);
      },
      refl,
      refl,
      in_range.0,
      λ n. (get_bucket-lt w.timer (ms_want (negsuc n)) now r).1 (omega arith),
    )
