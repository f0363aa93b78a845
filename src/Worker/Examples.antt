-- ===== src/Worker/Examples.antt =====
-- Tests of the start of the environment (src/b_routine_env.cc) and of a round of the worker's loop
-- (src/b_scheduler.cc) in which the time of the waiting task 7, of the routine 17, is up.
use b_routine.Base.{
  inl, ◌+◌, ◌*◌, ◌≡◌, refl, inr, true, false, In, [], ◌∷◌, none, some, arith, ◌==◌, if◌then◌else◌,
}
use b_routine.Stacks.{Os, level_size, allocate_stack_memory, new as new_stack, pool_pop, empty_pool}
use b_routine.Scheduler.{World, init_stack}
use b_routine.Poll.{Message}
use b_routine.Poll.Batch.{IsWaiting}
use b_routine.Deal.{poll}
use b_routine.Worker.{Machine, Input, switches, round}
use b_routine.Worker.Boot.{BootInput, Process, init}
use b_routine.Worker.Rotate.{yielding_rounds, SameBut, yielding_rounds-rotate}
use b_routine.Worker.Wakes.{CanDeal, round-wakes}
use b_routine.Worker.Started.{IsStarted, init-IsStarted}

-- The routine 1 is the loop's own.
abbrev world : World
world = record {
  routine = λ r. record {
    func = 100;
    args = 0;
    is_main = false;
    is_begin = false;
    is_done = false;
    is_hangup = false;
    is_progress = r == 1;
    is_enable_hook = true;
    id = r;
    stack = none;
    context_sp = 0;
    context_self = r;
  };
  allocated = λ r. true;
  occupy = 1;
  pending = 2;
  ready = 5 ∷ [];
  is_pending_need_delete = false;
  routine_pool = [];
  stack_pool = empty_pool;
  last_id = 0;
}

abbrev waiting : Message
waiting = record {
  pollfds = [];
  active_fds_nums = 0;
  active_fds_nums2 = 0;
  is_join_active_list = false;
  is_remove_from_timeout_list = false;
  owner = some 5;
  is_task_timeout = false;
}

abbrev machine : Machine
machine = record {
  world = world;
  env = record {
    shared = record {
      message = λ m. waiting;
      timer = record {
        bucket = λ j. if j == 5 then 7 ∷ [] else [];
        bucket_size = 10;
        last_check_time = 100;
        bucket_pos_now = 4;
      };
      ctl = [];
      ready = [];
    };
    on_timeout = λ t. poll t;
    is_timeout = λ a. 0;
    last_check_time = 100;
  };
  self_of = λ t. t + 10;
}

abbrev input : Input
input = record { lock_free = true; events = some []; now = 101; now_timer = 102; now_end = 102 }

seven-IsWaiting : IsWaiting machine.env.shared 7 5
seven-IsWaiting = record {
  owned = refl;
  no_events = (refl, refl);
  not_joined = refl;
  not_removed = refl;
  once = λ j. ground arith;
}

input-CanDeal : CanDeal 3 input machine [] 2
input-CanDeal = record {
  late = refl;
  free = refl;
  events = refl;
  waiting = λ n h. elim h [ ];
  few = λ n. omega arith;
  running = record {
    pos_lt = omega arith;
    size_small = omega arith;
    clock = omega arith;
    now_small = omega arith;
  };
  clock = refl;
  room = omega arith;
  fuel_enough = omega arith;
  resumable = λ t. ground arith;
}

round-wakes_example :
    (v : Machine) × (round 3 input machine ≡ some (switches, v))
    × In 17 (v.world.occupy ∷ v.world.ready)
round-wakes_example =
    round-wakes 3 input machine [] 2 7 5 refl input-CanDeal seven-IsWaiting (inr refl)

abbrev os : Os
os = record { page_size = 4096; mmap = λ n. some 65536; mprotect = λ p. true }

abbrev boot : BootInput
boot = record {
  main = 3;
  fresh = 4;
  process_begin = 900;
  thread_args = 901;
  now_timer = 100;
  now_epoll = 100;
}

large-got :
    init_stack os 3 empty_pool
    ≡ some (record { stack_ptr = 65536; stack_size = 4096 * 1024 }, empty_pool)
unfolding init_stack new_stack pool_pop level_size allocate_stack_memory
large-got = refl

init-IsStarted_example :
    (p : Process) × (init os boot 3 input 8 machine none ≡ some p) × IsStarted p boot 8
init-IsStarted_example =
    init-IsStarted os boot 3 input 8 machine
      (record { stack_ptr = 65536; stack_size = 4096 * 1024 }) empty_pool (omega arith)
      (omega arith) large-got
      (record {
        no_events = refl;
        clock = omega arith;
        small = omega arith;
        early = omega arith;
        fuel_enough = omega arith;
      })

-- The routines 5 and 6 are ready before 8. The clock stands still in the first round, and in the second
-- another thread is in `Deal`.
abbrev three_ready : Machine
three_ready = record machine { world = record world { ready = 5 ∷ 6 ∷ 8 ∷ [] } }

abbrev still : Input
still = record input { now = 100 }

abbrev busy : Input
busy = record input { lock_free = false }

yielding_rounds-rotate_example :
    (v : Machine) × (yielding_rounds 3 (still ∷ busy ∷ []) three_ready ≡ some v)
    × (v.world.ready ≡ 8 ∷ 5 ∷ 6 ∷ [])
    × SameBut three_ready v
yielding_rounds-rotate_example =
    yielding_rounds-rotate 3 (still ∷ busy ∷ []) (5 ∷ 6 ∷ []) (8 ∷ []) three_ready
      (refl, refl, refl) (inl refl, (refl, (inr refl, (refl, tt)))) refl
