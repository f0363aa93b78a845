-- ===== src/Deal.antt =====
-- `bRoutineEnv::Deal` of src/b_routine_env.cc: epoll's events, then the timer. The only items that the
-- library registers with epoll are those of the hooked `poll`, so each event has both callbacks.
pub mod Timeouts
pub mod Rings
pub mod Between
pub mod Polls
pub mod Conds
pub mod Once
mod Examples
use b_routine.Base.{
  ℕ, Bool, true, false, List, [], ◌∷◌, ◌++◌, Option, none, some, ◌==◌, if◌then◌else◌,
}
use b_routine.Wheel.{Timer, new_merge_update_to_now}
use b_routine.Poll.{Message, Shared, put, Event, poll_timeout, poll_perpare, poll_callback}
use b_routine.Poll.Batch.{perpare_all, callback_all}

-- The `timeoutCallFunc` of a task with its argument: none, that of a hooked `poll`, or that of a
-- `timeWait` with the address of its `IsTimeout`.
pub data OnTimeout : Type 0 where
  nothing : OnTimeout
  poll : (m : ℕ) → OnTimeout
  cond : (address : ℕ) → OnTimeout

-- `is_timeout` is the memory that `CondTimeOutCallback` writes.
pub record Env : Type 0 where
  pub shared : Shared
  pub on_timeout : ℕ → OnTimeout
  pub is_timeout : ℕ → ℕ
  pub last_check_time : ℕ

-- The callback of a task that has timed out.
pub timeout_call : OnTimeout → Env → Env
unfolding poll_timeout
timeout_call nothing e = e
timeout_call (poll m) e = record e { shared = poll_timeout m e.shared }
timeout_call (cond address) e = record e { is_timeout = put e.is_timeout address 1 }

-- The task is in no bucket any more; `task->IsTasktimeout = 1`, which only the hooked `poll` reads, of
-- its own task; and `AddTask`.
abbrev pub mark_added : ℕ → Env → Env
mark_added task e =
    let w = e.shared in
    record e {
      shared = record w {
        message =
            put w.message task (record (w.message task) { is_task_timeout = true; owner = none });
        ready = w.ready ++ task ∷ [];
      };
    }

-- A round of the loop over the tasks that have timed out.
pub time_out : ℕ → Env → Env
unfolding timeout_call
time_out task e = mark_added task (timeout_call (e.on_timeout task) e)

-- The loop, on the queue that the timer's merge returns.
pub time_out_all : List ℕ → Env → Env
unfolding time_out
time_out_all [] e = e
time_out_all (t ∷ ts) e = time_out_all ts (time_out t e)

-- The part of `Deal` behind the events.
unfoldable pub deal_timer : (fuel now now' : ℕ) → Env → Option Env
unfolding time_out_all
deal_timer fuel now now' e = elim (new_merge_update_to_now fuel e.shared.timer now) [
  | none ↦ none
  | some (timer, due) ↦
      let w = e.shared in
      let v = time_out_all due (record e { shared = record w { timer = timer } }) in
      some (record v { last_check_time = now' })
]

-- `Deal`, with what `epoll_wait` returns (`none` is -1) and the two times that `getNow_Ms` returns.
-- `none` is its `throw`, the use of a null owner, or a merge that is still running.
unfoldable pub deal : (fuel : ℕ) → Option (List Event) → (now now' : ℕ) → Env → Option Env
unfolding deal_timer
deal fuel none now now' e = none
deal fuel (some events) now now' e = elim (perpare_all events e.shared) [
  | none ↦ none
  | some w ↦ deal_timer fuel now now' (record e { shared = callback_all events w })
]
