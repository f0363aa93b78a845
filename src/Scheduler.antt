-- ===== src/Scheduler.antt =====
-- Routines and their scheduler on the only worker thread that the library ever starts:
-- src/b_routine.h, src/b_routine.cc, src/b_scheduler.h, src/b_scheduler.cc and `bRoutineRecycle` of
-- src/b_routine_env.cc. A routine is known by its pointer; the ready list is the queue of
-- the routines of its tasks, so `AddTask` pushes there. What a switch does to registers and stacks
-- is not modelled: a switch is the exchange of the two routine pointers.
pub mod Rounds
pub mod Lifetime
pub mod Made
mod Examples
use b_routine.Base.{
  ℕ, zero, suc, ◌+◌, ◌-◌, ◌%◌, ◌^◌, Bool, true, false, not, ◌&&◌, List, [], ◌∷◌, ◌++◌, Option, none,
  some, ◌==◌, if◌then◌else◌,
}
use b_routine.Stacks.{Stack, StackPool, Os, pool_pop, pool_push, init_sp, new}

-- `bRoutine`, with what `bContext::init` stores in its context.
pub record Routine : Type 0 where
  pub func : ℕ
  pub args : ℕ
  pub is_main : Bool
  pub is_begin : Bool
  pub is_done : Bool
  pub is_hangup : Bool
  pub is_progress : Bool
  pub is_enable_hook : Bool
  pub id : ℕ
  pub stack : Option Stack
  pub context_sp : ℕ
  pub context_self : ℕ

-- The scheduler of the thread and the pools of the environment.
pub record World : Type 0 where
  pub routine : ℕ → Routine
  pub allocated : ℕ → Bool
  pub occupy : ℕ
  pub pending : ℕ
  pub ready : List ℕ
  pub is_pending_need_delete : Bool
  pub routine_pool : List ℕ
  pub stack_pool : StackPool
  pub last_id : ℕ

abbrev pub put {ℓ} : {A : Type ℓ} → (ℕ → A) → ℕ → A → ℕ → A
put f p v q = if q == p then v else f q

-- `TaskDistributor_t::AddTask` of a task for the routine `r`. `none` is its `throw`.
unfoldable pub add_task : ℕ → World → Option World
add_task r w =
    if (w.routine r).is_progress then none else some (record w { ready = w.ready ++ r ∷ [] })

-- `bScheduler::SwapContext` up to the switch.
unfoldable pub swap_context : World → World
swap_context w =
    let o = w.occupy in
    let v =
      if (w.routine o).is_main && (w.routine o).is_progress
      then record w {
        routine = put w.routine o (record (w.routine o) { is_progress = false });
        ready = w.ready ++ o ∷ [];
      }
      else w in
    record v { occupy = w.pending; pending = w.occupy }

-- `bRoutine::yield`, up to the switch.
unfoldable pub yield : World → Option World
unfolding add_task swap_context
yield w = elim (add_task w.occupy w) [ none ↦ none | some v ↦ some (swap_context v) ]

-- `bRoutine::Resume` on the routine `target`, up to the switch.
pub resume : ℕ → World → Option World
unfolding add_task swap_context
resume target w = elim (add_task target w) [
  | none ↦ none
  | some v ↦ elim (add_task w.occupy v) [ none ↦ none | some u ↦ some (swap_context u) ]
]

-- The part of a round of `ProcessBegin` that switches to the first ready routine; `none` where no
-- task is ready.
unfoldable pub dispatch : World → Option World
unfolding swap_context
dispatch w = elim w.ready [
  | [] ↦ none
  | r ∷ rest ↦ some (swap_context (record w { ready = rest; pending = r }))
]

-- `bRoutine::Del`.
pub del : ℕ → World → World
del r w = record w { allocated = put w.allocated r false }

-- What a round of `ProcessBegin` does when the routine has switched back.
unfoldable pub after_switch : World → World
unfolding del
after_switch w =
    if w.is_pending_need_delete
    then record (if (w.routine w.pending).is_main then w else del w.pending w) {
      is_pending_need_delete = false;
    }
    else w

-- `bRoutinePool_t::push`.
abbrev pub routine_pool_push : ℕ → List ℕ → List ℕ
routine_pool_push r pool = pool ++ r ∷ []

-- `bRoutine::getSelf`.
abbrev pub get_self : World → ℕ
get_self w = w.occupy

-- `bRoutineRecycle`. `none` is the use of a null stack pointer by `push`.
pub recycle : ℕ → World → Option World
recycle r w =
    let v = record w { routine = put w.routine r (record (w.routine r) { is_done = true }) } in
    if (v.routine r).is_main then some v else elim ((v.routine r).stack) [
      | none ↦ none
      | some s ↦
          let (result, pool) = pool_push s v.stack_pool in
          elim result [
            | none ↦ some (record v { is_pending_need_delete = true })
            | some n ↦ some (record v {
              stack_pool = pool;
              routine = put v.routine r (record (v.routine r) { stack = none });
              routine_pool = routine_pool_push r v.routine_pool;
            })
          ]
    ]

-- `bRoutine::deleteSelf`, up to the switch.
pub delete_self : World → Option World
unfolding recycle swap_context
delete_self w = elim (recycle w.occupy w) [ none ↦ none | some v ↦ some (swap_context v) ]

-- `RoutineBegin` before the routine's function: `none` is its `throw`.
unfoldable pub begin_routine : ℕ → World → Option World
begin_routine r w =
    if (w.routine r).is_begin
    then none
    else some (record w { routine = put w.routine r (record (w.routine r) { is_begin = true }) })

-- `RoutineBegin` behind the routine's function, up to the switch.
pub end_routine : ℕ → World → Option World
unfolding swap_context
end_routine r w =
    let v = record w {
      routine =
          put w.routine r (record (w.routine r) { is_done = true; is_begin = false; args = 0 });
    } in
    elim (recycle r v) [ none ↦ none | some u ↦ some (swap_context u) ]

-- `bRoutinePool_t::pop` on the queue of its `List<bRoutine>`: a routine, if there is one.
unfoldable pub routine_pool_pop : List ℕ → Option ℕ × List ℕ
routine_pool_pop [] = (none, [])
routine_pool_pop (p ∷ rest) = (some p, rest)

-- The routine that `New` takes, with the pointer that `calloc` returns if the pool is empty, and
-- the pool that is left.
unfoldable pub take_routine : (fresh : ℕ) → List ℕ → ℕ × List ℕ
unfolding routine_pool_pop
take_routine fresh pool =
    let (kept, left) = routine_pool_pop pool in (elim kept [ none ↦ fresh | some p ↦ p ], left)

-- `initStack`: a stack of the pool, or a new one. `none` is the `throw` of `bRoutineStack::New`.
unfoldable pub init_stack : Os → ℕ → StackPool → Option (Stack × StackPool)
init_stack os level pool =
    let (kept, left) = pool_pop level pool in
    elim kept [
      | some s ↦ some (s, left)
      | none ↦ elim (new os level) [ none ↦ none | some (s, m) ↦ some (s, left) ]
    ]

-- `bRoutine::New`: the routine and the world. `none` is the `throw` of `bRoutineStack::New`.
unfoldable pub new_routine : Os → (fresh level func args : ℕ) → World → Option (ℕ × World)
new_routine os fresh level func args w =
    let (r, pool) = take_routine fresh w.routine_pool in
    let id = (w.last_id + 1) % 2 ^ 16 in
    elim (init_stack os level w.stack_pool) [
      | none ↦ none
      | some (s, stacks) ↦ some (
        r,
        record w {
          routine = put w.routine r (record {
            func = func;
            args = args;
            is_main = false;
            is_begin = false;
            is_done = false;
            is_hangup = false;
            is_progress = false;
            is_enable_hook = true;
            id = id;
            stack = some s;
            context_sp = init_sp os.page_size s;
            context_self = r;
          });
          allocated = put w.allocated r true;
          routine_pool = pool;
          stack_pool = stacks;
          last_id = id;
        },
      )
    ]
