-- ===== src/Scheduler/Examples.antt =====
-- Tests of the scheduler (src/b_scheduler.cc, src/b_routine.cc, src/b_routine_env.cc).
use b_routine.Base.{
  ℕ, ◌*◌, ◌≡◌, ◌≢◌, refl, ◌⊎◌, true, false, List, [], ◌∷◌, some, none, arith, ◌==◌, if◌then◌else◌,
}
use b_routine.Stacks.{Stack, Os, empty_pool, pool_push}
use b_routine.Scheduler.{
  Routine, World, after_switch, begin_routine, end_routine, init_stack, new_routine,
}
use b_routine.Scheduler.Lifetime.{IsRunning, end_routine_lem}
use b_routine.Scheduler.Made.{IsNew, new_routine-IsNew}

abbrev mini : Stack
mini = record { stack_ptr = 65536; stack_size = 128 * 1024 }

-- The routine 1 is the scheduler's own; the others are ordinary ones with a stack.
abbrev routine : ℕ → Routine
routine r = record {
  func = 100;
  args = 0;
  is_main = false;
  is_begin = false;
  is_done = false;
  is_hangup = false;
  is_progress = r == 1;
  is_enable_hook = true;
  id = r;
  stack = some mini;
  context_sp = 0;
  context_self = r;
}

abbrev pooled : List ℕ
pooled = 9 ∷ []

abbrev world : (occupy pending : ℕ) → List ℕ → World
world occupy pending ready = record {
  routine = routine;
  allocated = λ r. true;
  occupy = occupy;
  pending = pending;
  ready = ready;
  is_pending_need_delete = false;
  routine_pool = pooled;
  stack_pool = empty_pool;
  last_id = 65535;
}

world-IsRunning : IsRunning (world 2 1 []) 2 mini
world-IsRunning = record {
  running = refl;
  other = omega arith;
  not_main = refl;
  owns = refl;
  no_flag = refl;
}

end_routine_lem_example :
    (v : World) × (end_routine 2 (world 2 1 []) ≡ some v)
    × (after_switch v ≡ v)
    × (v.occupy ≡ 1)
    × (v.ready ≡ [])
    × (v.routine_pool ≡ 9 ∷ 2 ∷ [])
    × (v.stack_pool ≡ (pool_push mini empty_pool).1)
    × ((v.routine 2).stack ≡ none)
    × ((v.routine 2).is_done ≡ true)
    × (v.allocated ≡ (world 2 1 []).allocated)
end_routine_lem_example = (end_routine_lem (world 2 1 []) 2 mini world-IsRunning).0 (omega arith)

abbrev system : Os
system = record { page_size = 4096; mmap = λ n. some 65536; mprotect = λ p. true }

new_routine-IsNew_example :
    ((init_stack system 1 empty_pool ≡ none)
      × (new_routine system 50 1 100 7 (world 2 1 []) ≡ none))
    ⊎ ((r : ℕ) × (v : World) × (new_routine system 50 1 100 7 (world 2 1 []) ≡ some (r, v))
        × IsNew system 1 100 7 (world 2 1 []) v r
        × ((a : ℕ) → a ≢ r → v.routine a ≡ routine a)
        × (v.ready ≡ [])
        × (((pooled ≡ []) × (r ≡ 50)) ⊎ (pooled ≡ r ∷ v.routine_pool)))
new_routine-IsNew_example = new_routine-IsNew system 50 1 100 7 (world 2 1 [])

-- A routine begins once.
begin_routine-runs :
    (v : World) × (begin_routine 2 (world 2 1 []) ≡ some v) × (begin_routine 2 v ≡ none)
unfolding begin_routine
begin_routine-runs = (
  record (world 2 1 []) {
    routine = λ q. if q == 2 then record (routine 2) { is_begin = true } else routine q;
  },
  refl,
  refl,
)
