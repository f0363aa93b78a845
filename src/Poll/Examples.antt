-- ===== src/Poll/Examples.antt =====
-- Tests of the hooked `poll` (src/b_hook.cc) and of a pass of `Deal` (src/b_routine_env.cc) over two
-- calls of it: the task 1 waits for the descriptors 4 and 5, the task 2 for the descriptor 6.
use b_routine.Base.{◌^◌, ◌-◌, ◌+◌, ◌≡◌, refl, List, [], ◌∷◌, arith}
use b_routine.Wheel.{Timer, get_bucket}
use b_routine.Hooks.{pos, negsuc}
use b_routine.Poll.{PollFd, Shared, new_message, ms_want, poll_begin, poll_end, to_int, set_revents}
use b_routine.Poll.Events.{
  pollin, pollout, epoll_to_poll_events, poll_to_epoll_events, events-known,
}
use b_routine.Poll.Batch.{IsWaiting}
use b_routine.Poll.Begin.{poll_begin-IsWaiting}

events-known_example : epoll_to_poll_events (poll_to_epoll_events (pollin + pollout)) ≡ 5
events-known_example = (events-known (pollin + pollout)).3 (omega arith)

abbrev fds : List PollFd
fds =
    record { fd = 4; events = pollin; revents = 9 }
    ∷ record { fd = 5; events = pollout; revents = 0 }
    ∷ []

abbrev wheel : Timer
wheel = record { bucket = λ j. []; bucket_size = 10; last_check_time = 100; bucket_pos_now = 4 }

abbrev before : Shared
before = record { message = λ m. new_message []; timer = wheel; ctl = []; ready = 8 ∷ [] }

poll_begin-IsWaiting_example :
    IsWaiting (poll_begin 1 fds (negsuc 0) before) 1 (get_bucket wheel (ms_want (negsuc 0)))
poll_begin-IsWaiting_example =
    (poll_begin-IsWaiting 1 fds (negsuc 0) 100 before
      (record {
        pos_lt = omega arith;
        size_small = omega arith;
        clock = omega arith;
        now_small = omega arith;
      })
      (omega arith) (λ j. refl)).0

-- The first entry with the descriptor gets the events.
set_revents-runs :
    set_revents 5 pollout fds
    ≡ record { fd = 4; events = pollin; revents = 9 }
      ∷ record { fd = 5; events = pollout; revents = 4 }
      ∷ []
unfolding set_revents
set_revents-runs = refl

-- A call that neither an event nor the timer has woken unregisters its descriptors itself.
poll_end-runs :
    ((poll_end 1 before).0 ≡ pos 0)
    × (to_int (2 ^ 32 + 7) ≡ pos 7)
    × (to_int (2 ^ 31) ≡ negsuc (2 ^ 31 - 1))
unfolding poll_end new_message
poll_end-runs = (refl, refl, refl)
