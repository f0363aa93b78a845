-- ===== src/Distributor.antt =====
-- `TaskDistributor_t`, `Try2stealTask` and `stealTaskRoutine` of src/b_routine_env.h and
-- src/b_routine_env.cc. A ready list is the abstract queue of its `TaskItemsList`.
pub mod Steal
pub mod Loop
pub mod Visit
pub mod RoundRobin
mod Examples
use b_routine.Base.{
  ℕ, zero, suc, ◌+◌, ◌%◌, Bool, true, false, not, ◌&&◌, List, [], ◌∷◌, ◌++◌, Option, none, some,
  ◌==◌, ltb, if◌then◌else◌, length,
}

-- A `TaskItem` and the flags of its routine, `self`.
pub record Task : Type 0 where
  pub id : ℕ
  pub is_main : Bool
  pub is_progress : Bool

-- What `AddTask` looks up in a scheduler before it signals it.
pub record Worker : Type 0 where
  pub is_thread_running : Bool
  pub mutex_held : Bool

-- `capacity` is the number of entries that `New` has allocated, `cursor` the static variable of
-- `AddTask`.
pub record Distributor : Type 0 where
  pub active_tasks : ℕ → List Task
  pub workers : ℕ → Worker
  pub size : ℕ
  pub capacity : ℕ
  pub cursor : ℕ

-- `throw` of `AddTask`, an index past the allocated entries, an entry that is still null, a ready
-- list that has been followed for all the rounds given.
pub data Fault : Type 0 where
  thrown : Fault
  out_of_bounds : ℕ → Fault
  null_entry : ℕ → Fault
  unfinished : Fault

pub data Result (A : Type 0) : Type 0 where
  ok : A → Result A
  fault : Fault → Result A

abbrev pub put {ℓ} : {A : Type ℓ} → (ℕ → A) → ℕ → A → ℕ → A
put f i v j = if j == i then v else f j

-- `TaskDistributor_t::New`.
pub new : ℕ → Distributor
new size = record {
  active_tasks = λ i. [];
  workers = λ i. record { is_thread_running = false; mutex_held = false };
  size = 0;
  capacity = size;
  cursor = 0;
}

-- An access to the entry `i` of `ActiveTasks` or `schedulers`.
abbrev pub entry : {A : Type 0} → Distributor → ℕ → Result A → Result A
entry d i r =
    if ltb i d.capacity
    then (if ltb i d.size then r else fault (null_entry i))
    else fault (out_of_bounds i)

-- `TaskDistributor_t::registe`: the scheduler's number. Its ready list is new.
pub registe : Worker → Distributor → Result (ℕ × Distributor)
registe w d =
    if ltb d.size d.capacity
    then ok (
      d.size,
      record d {
        active_tasks = put d.active_tasks d.size [];
        workers = put d.workers d.size w;
        size = d.size + 1;
      },
    )
    else fault (out_of_bounds d.size)

-- `TaskDistributor_t::AddTask`, with whether it signals the worker.
pub add_task : Task → Distributor → Result (Bool × Distributor)
add_task task d =
    if task.is_progress
    then fault thrown
    else let i = d.cursor in
      entry d i (
        ok (
          not (d.workers i).is_thread_running && not (d.workers i).mutex_held,
          record d {
            active_tasks = put d.active_tasks i (d.active_tasks i ++ task ∷ []);
            cursor = (i + 1) % d.size;
          },
        ))

-- Whether the two calls of `pthread_mutex_trylock` succeed.
pub record TryLocks : Type 0 where
  pub head : Bool
  pub tail : Bool

-- `Try2stealTask` on the items of a list: the task it answers, and what the list then holds.
pub try_to_steal : TryLocks → List Task → Option Task × List Task
try_to_steal locks [] = (none, [])
try_to_steal locks (a ∷ []) =
    if not locks.head
    then (none, a ∷ [])
    else if not locks.tail
    then (none, a ∷ [])
    else if a.is_main
    then (some a, a ∷ [])
    else (some a, [])
try_to_steal locks (a ∷ b ∷ rest) =
    if not locks.head
    then (none, a ∷ b ∷ rest)
    else if a.is_main
    then (none, (b ∷ rest) ++ a ∷ [])
    else (some a, b ∷ rest)

abbrev pub to_list : Option Task → List Task
to_list none = []
to_list (some a) = a ∷ []

-- A round of the loop of `stealTaskRoutine` at the entry `id`.
pub steal_from : TryLocks → (self id : ℕ) → Distributor → Distributor
unfolding try_to_steal
steal_from locks self id d =
    let (p, left) = try_to_steal locks (d.active_tasks id) in
    let lists = put d.active_tasks id left in
    record d { active_tasks = put lists self (lists self ++ to_list p) }

-- The loop of `stealTaskRoutine`, which tests `id != sch->ID` and steps by `++id`.
pub steal_loop : ℕ → (ℕ → TryLocks) → (self id : ℕ) → Distributor → Result Distributor
steal_loop zero locks self id d = fault unfinished
steal_loop (suc fuel) locks self id d =
    let round = steal_loop fuel locks self (id + 1) (steal_from (locks id) self id d) in
    if id == self then ok d else entry d id round

-- `TaskItemsList::popHead`, on a queue.
pub pop_head : ℕ → Distributor → Option Task × Distributor
pop_head self d = elim (d.active_tasks self) [
  | [] ↦ (none, d)
  | a ∷ rest ↦ (some a, record d { active_tasks = put d.active_tasks self rest })
]

-- `stealTaskRoutine`.
pub steal_task_routine : ℕ → (ℕ → TryLocks) → ℕ → Distributor → Result (Option Task × Distributor)
steal_task_routine fuel locks self d = elim (steal_loop fuel locks self ((self + 1) % d.size) d) [
  | ok d' ↦ ok (pop_head self d')
  | fault e ↦ fault e
]
