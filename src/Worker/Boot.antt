-- ===== src/Worker/Boot.antt =====
-- How the environment starts: `InitializeBRoutineEnv`, `CreatMutProcessEnv` and `bRoutineEnv::init` of
-- src/b_routine_env.cc, `bSchedulerCreat` and the start of `ProcessBegin` of src/b_scheduler.cc.
-- A thread that `pthread_create` starts is counted and does not run.
use b_routine.Base.{
  ◌==◌, ℕ, zero, suc, ◌+◌, ◌-◌, true, false, [], Option, none, some, ltb, if◌then◌else◌,
}
use b_routine.Stacks.{Os, large_stack, empty_pool}
use b_routine.Scheduler.{Routine, World, put, swap_context, new_routine, begin_routine}
use b_routine.Wheel.{new as new_timer}
use b_routine.Hooks.{ℤ, pos, negsuc}
use b_routine.Deal.{Env}
use b_routine.Worker.{Machine, Input, Turn, round}

-- `capacity` is the number of entries of the distributor's arrays, `size` how many are registered.
pub record Process : Type 0 where
  pub machine : Machine
  pub capacity : ℕ
  pub size : ℕ
  pub scheduler_id : ℕ
  pub threads : ℕ

-- What `calloc` gives for the two routines, the two pointers that the second one is made with, and
-- what `getNow_Ms` returns to `bEpTimer::New` and `bEpoll::New`.
pub record BootInput : Type 0 where
  pub main : ℕ
  pub fresh : ℕ
  pub process_begin : ℕ
  pub thread_args : ℕ
  pub now_timer : ℕ
  pub now_epoll : ℕ

-- `bEpoll::New`, in the memory of `e`. The file descriptor and the buffer of events are the system's.
unfoldable pub new_epoll : BootInput → Env → Env
new_epoll b e = record e {
  shared = record (e.shared) { timer = new_timer b.now_timer; ctl = []; ready = [] };
  last_check_time = b.now_epoll;
}

-- `InitializeBRoutineEnv`, in the memory of `m`.
unfoldable pub initialize_env : BootInput → (run_process_nums : ℕ) → Machine → Process
unfolding new_epoll
initialize_env b n m = record {
  machine = record m {
    world = record (m.world) { routine_pool = []; stack_pool = empty_pool };
    env = new_epoll b m.env;
  };
  capacity = n;
  size = 0;
  scheduler_id = 0;
  threads = 0;
}

-- `bSchedulerCreat`, with `bRoutine::Alloc`.
unfoldable pub scheduler_creat : (main : ℕ) → World → World
scheduler_creat main w = record w {
  routine = put w.routine main (record {
    func = 0;
    args = 0;
    is_main = false;
    is_begin = true;
    is_done = false;
    is_hangup = false;
    is_progress = true;
    is_enable_hook = true;
    id = 0;
    stack = none;
    context_sp = 0;
    context_self = 0;
  });
  allocated = put w.allocated main true;
  occupy = main;
  pending = 0;
  ready = [];
  is_pending_need_delete = false;
}

abbrev pub change : World → ℕ → (Routine → Routine) → World
change w r f = record w { routine = put w.routine r (f (w.routine r)) }

-- The flags that `CreatMutProcessEnv` sets before it switches to `mainR`, here `r`.
unfoldable pub mark_process : (r : ℕ) → World → World
mark_process r w =
    let v = change w r (λ x. record x { id = 0; is_enable_hook = true; is_progress = true }) in
    record (change v v.occupy (λ x. record x { is_main = true })) { pending = r }

-- `CreatMutProcessEnv` up to the switch, on a thread that has no scheduler yet. `none` is the `throw` of `bRoutineStack::New`.
unfoldable pub suspend_main : Os → BootInput → World → Option World
unfolding scheduler_creat mark_process
suspend_main os b w =
    let v = scheduler_creat b.main w in
    let u = change v v.occupy (λ x. record x { id = 1 }) in
    elim (new_routine os b.fresh large_stack b.process_begin b.thread_args u) [
      | none ↦ none
      | some (r, x) ↦ some (swap_context (mark_process r x))
    ]

-- `ProcessBegin` in front of its loop, with `registe`. `none` is an entry past the arrays.
unfoldable pub enter_process : Process → Option Process
enter_process p =
    let m = p.machine in
    if ltb p.size p.capacity
    then some (record p {
      size = p.size + 1;
      scheduler_id = p.size;
      machine = record m {
        world = change m.world m.world.occupy (λ x. record x { is_progress = true });
      };
    })
    else none

-- The loop that starts the other threads, from `i` on, on the number of rounds that are left.
unfoldable pub start_threads : (left threads : ℕ) → ℕ
start_threads zero threads = threads
start_threads (suc left) threads = start_threads left (threads + 1)

-- `mainR` runs until it switches back: its first round pops the main routine's task. A thread that went
-- to sleep would not come back here.
unfoldable pub run_process : (fuel : ℕ) → Input → Process → Option Process
unfolding enter_process
run_process fuel i p =
    let m = p.machine in
    elim (begin_routine m.world.occupy m.world) [
      | none ↦ none
      | some w ↦ elim (enter_process (record p { machine = record m { world = w } })) [
        | none ↦ none
        | some q ↦ elim (round fuel i q.machine) [
          | none ↦ none
          | some (Turn.sleeps, v) ↦ none
          | some (Turn.switches, v) ↦
              some (record q { machine = v; threads = start_threads (q.size - 1) q.threads })
        ]
      ]
    ]

-- `bRoutineEnv::init`, on the environment that is there, if any.
unfoldable pub init :
    Os
    → BootInput
    → (fuel : ℕ) → Input
    → (run_process_nums : ℕ) → Machine
    → Option Process
    → Option Process
unfolding initialize_env suspend_main run_process
init os b fuel i n m (some p) = some p
init os b fuel i n m none =
    let p = initialize_env b n m in
    elim (suspend_main os b p.machine.world) [
      | none ↦ none
      | some w ↦ run_process fuel i (record p { machine = record (p.machine) { world = w } })
    ]

-- `defaultProcess` of src/b_common.h.
abbrev pub default_process : ℕ
default_process = 1

-- `bRoutineEnv::get`.
pub get : Os → BootInput → (fuel : ℕ) → Input → Machine → Option Process → Option Process
unfolding init
get os b fuel i m p = init os b fuel i default_process m p

-- `bRoutineInitProcessNumber`. `none` is its `abort` too.
pub init_process_number :
    Os → BootInput → (fuel : ℕ) → Input → ℤ → Machine → Option Process → Option Process
unfolding init
init_process_number os b fuel i (negsuc k) m p = none
init_process_number os b fuel i (pos n) m p = if n == 0 then none else init os b fuel i n m p
