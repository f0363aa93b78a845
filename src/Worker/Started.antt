-- ===== src/Worker/Started.antt =====
-- What `bRoutineEnv::init` (src/b_routine_env.cc) has started when it returns.
use b_routine.Base.{ℕ, ◌<◌, ◌≡◌, ◌≢◌, refl, true, false, [], ◌∷◌, none, some, arith, ltb}
use b_routine.Wheel.{new as new_timer}
use b_routine.Stacks.{Os, Stack, StackPool, large_stack, empty_pool}
use b_routine.Scheduler.{World, swap_context, take_routine, init_stack, new_routine}
use b_routine.Worker.{Machine, Input}
use b_routine.Worker.Wakes.{round-dispatch}
use b_routine.Worker.Boot.{
  Process, BootInput, initialize_env, scheduler_creat, mark_process, suspend_main, enter_process,
  start_threads, run_process, init,
}
use b_routine.Worker.Idle.{Checks, IsIdle, check_env-idle}
use b_routine.Worker.Stands.{
  marked, Stands, marked-Stands, swap-Stands, begun, begin-Stands, dispatch-Stands, entered,
  enter-Stands,
}

-- What the program's threads look like behind `init`.
pub record IsStarted (p : Process) (b : BootInput) (n : ℕ) : Type 0 where
  pub registered : (p.size ≡ 1) × (p.capacity ≡ n) × (p.scheduler_id ≡ 0)
  pub threads : p.threads ≡ 0
  pub running : (p.machine.world.occupy ≡ b.main) × (p.machine.world.pending ≡ b.fresh)
  pub ready : p.machine.world.ready ≡ []
  pub main :
      ((p.machine.world.routine b.main).is_main ≡ true)
      × ((p.machine.world.routine b.main).is_progress ≡ false)
  pub process :
      ((p.machine.world.routine b.fresh).is_begin ≡ true)
      × ((p.machine.world.routine b.fresh).is_progress ≡ true)
      × ((p.machine.world.routine b.fresh).is_main ≡ false)

-- The machine when the process's loop begins.
abbrev in_loop : Machine → Machine
in_loop m = record m { world = entered (begun m.world) }

abbrev new_process : Machine → ℕ → Process
new_process m n = record { machine = m; capacity = n; size = 0; scheduler_id = 0; threads = 0 }

run_process-IsStarted :
    (b : BootInput) (fuel : ℕ) (i : Input) (m : Machine) (n : ℕ)
    → b.fresh ≢ b.main
    → 0 < n
    → Checks fuel i b.now_timer
    → IsIdle m.env b.now_timer
    → Stands b m.world b.fresh (b.main ∷ []) false false
    → (q : Process) × (run_process fuel i (new_process m n) ≡ some q) × IsStarted q b n
unfolding run_process enter_process start_threads
run_process-IsStarted b fuel i m n other some_process checks idle h =
    let (starts, h1) = begin-Stands b m.world other h in
    let h2 = enter-Stands b (begun m.world) other h1 in
    let (v, checked, same) = check_env-idle fuel i (in_loop m) b.now_timer checks idle in
    let (w, switched, from, h3) = dispatch-Stands b (entered (begun m.world)) h2 in
    let fits : ltb 0 n ≡ true = ground arith in
    let turn = round-dispatch fuel i (in_loop m) v w checked (rw same switched) in
    (
      record {
        size = 1;
        capacity = n;
        scheduler_id = 0;
        machine = record v { world = w };
        threads = 0;
      },
      rw (starts, fits, turn, run_process) refl,
      record {
        registered = (refl, refl, refl);
        threads = refl;
        running = (h3.at.0, from);
        ready = h3.at.1;
        main = h3.main;
        process = (h3.fresh.1, h3.fresh.2, h3.fresh.0);
      },
    )

-- A world whose pools are new.
abbrev pooled : World → World
pooled w = record w { routine_pool = []; stack_pool = empty_pool }

suspend_main-marked :
    (os : Os) (b : BootInput) (w : World) (s : Stack) (stacks : StackPool)
    → init_stack os large_stack empty_pool ≡ some (s, stacks)
    → suspend_main os b (pooled w) ≡ some (swap_context (marked os b (pooled w) s stacks))
unfolding suspend_main new_routine take_routine scheduler_creat
suspend_main-marked os b w s stacks got = rw (got, new_routine, suspend_main) refl

init-runs :
    (os : Os) (b : BootInput) (fuel : ℕ) (i : Input) (n : ℕ) (m : Machine) (w : World) (q : Process)
    → suspend_main os b (initialize_env b n m).machine.world ≡ some w
    → run_process fuel i (new_process (record ((initialize_env b n m).machine) { world = w }) n)
      ≡ some q
    → init os b fuel i n m none ≡ some q
unfolding init initialize_env
init-runs os b fuel i n m w q suspended run = rw (suspended, init) run

-- `init` of a program that has no environment yet registers the calling thread's scheduler and no
-- other, and starts no thread, however many processes it is asked for. When it returns, the main
-- routine runs and can be made ready, no task is ready, and the loop's own routine has begun and is
-- the one that a switch goes back to. The number of processes is not 0, a large stack is to be had,
-- the two routines have different addresses, `epoll` has no events, the clock does not go back and
-- fewer than 29999 milliseconds go by until the first check, with fuel for each.
pub init-IsStarted :
    (os : Os) (b : BootInput) (fuel : ℕ) (i : Input) (n : ℕ) (m : Machine) (s : Stack)
    (stacks : StackPool)
    → b.fresh ≢ b.main
    → 0 < n
    → init_stack os large_stack empty_pool ≡ some (s, stacks)
    → Checks fuel i b.now_timer
    → (p : Process) × (init os b fuel i n m none ≡ some p) × IsStarted p b n
unfolding new_timer initialize_env mark_process
init-IsStarted os b fuel i n m s stacks other some_process got checks =
    let p = initialize_env b n m in
    let x = marked os b p.machine.world s stacks in
    let h = swap-Stands b x other refl (marked-Stands os b p.machine.world s stacks other) in
    let (q, run, started) =
      run_process-IsStarted b fuel i (record (p.machine) { world = swap_context x }) n other
        some_process checks
        (record {
          buckets = λ j. refl;
          position = refl;
          size = refl;
          time = refl;
          none_ready = refl;
        })
        h in
    (
      q,
      init-runs os b fuel i n m (swap_context x) q (suspend_main-marked os b m.world s stacks got)
          run,
      started,
    )
