-- ===== src/Worker.antt =====
-- The worker thread: the loop of `ProcessBegin` (src/b_scheduler.cc) over the environment's `Deal` and
-- the thread's ready list. A task is made ready by its pointer, and `self_of` is its `self`; the ready
-- list of the scheduler is the queue of the routines of its tasks. The thread is the only one that is
-- registered, so `stealTaskRoutine` visits no other list, and its `popHead` finds what `popHead` found.
pub mod Boot
pub mod Idle
pub mod Stands
pub mod Rotate
pub mod Wakes
pub mod Started
mod Examples
use b_routine.Base.{
  ℕ, ◌+◌, ◌-◌, ◌%◌, ◌^◌, Bool, true, false, List, [], ◌∷◌, Option, none, some, ◌==◌, if◌then◌else◌,
}
use b_routine.Scheduler.{World, add_task, dispatch}
use b_routine.Poll.{Event}
use b_routine.Deal.{Env, deal}

abbrev pub u64 : ℕ
u64 = 2 ^ 64

pub record Machine : Type 0 where
  pub world : World
  pub env : Env
  pub self_of : ℕ → ℕ

-- `AddTask` of each task in turn. `none` is its `throw`.
unfoldable pub add_all : (ℕ → ℕ) → List ℕ → World → Option World
add_all self_of [] w = some w
add_all self_of (t ∷ ts) w = elim (add_task (self_of t) w) [
  | none ↦ none
  | some v ↦ add_all self_of ts v
]

-- `Deal`, and the tasks that it has added on the thread's ready list. It reads the clock twice.
unfoldable pub deal_tasks :
    (fuel : ℕ) → Option (List Event) → (now now' : ℕ) → Machine → Option Machine
unfolding add_all
deal_tasks fuel events now now' m = elim (deal fuel events now now' m.env) [
  | none ↦ none
  | some e ↦ elim (add_all m.self_of e.shared.ready m.world) [
    | none ↦ none
    | some w ↦
        some (record m { world = w; env = record e { shared = record (e.shared) { ready = [] } } })
  ]
]

-- What a round takes from outside: whether `pthread_mutex_trylock` finds `bEpollDealLock` free, what
-- `epoll_wait` answers, and the times that the three calls of `getNow_Ms` return.
pub record Input : Type 0 where
  pub lock_free : Bool
  pub events : Option (List Event)
  pub now : ℕ
  pub now_timer : ℕ
  pub now_end : ℕ

-- The first part of a round: `Deal`, at most once for each millisecond.
unfoldable pub check_env : (fuel : ℕ) → Input → Machine → Option Machine
unfolding deal_tasks
check_env fuel i m =
    if (i.now + u64 - m.env.last_check_time) % u64 == 0
    then some m
    else if i.lock_free
    then deal_tasks fuel i.events i.now_timer i.now_end m
    else some m

pub data Turn : Type 0 where
  switches : Turn
  sleeps : Turn

-- A round of the loop, up to the switch or to `pthread_cond_timedwait`.
unfoldable pub round : (fuel : ℕ) → Input → Machine → Option (Turn × Machine)
unfolding check_env
round fuel i m = elim (check_env fuel i m) [
  | none ↦ none
  | some v ↦ elim (dispatch v.world) [
    | none ↦ some (sleeps, v)
    | some w ↦ some (switches, record v { world = w })
  ]
]
