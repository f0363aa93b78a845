-- ===== src/Distributor/Examples.antt =====
-- Tests of the distributor of src/b_routine_env.cc.
use mathlib.Core.List.{Perm}
use b_routine.Base.{
  ◌<◌, some, ℕ, ◌+◌, ◌≡◌, refl, true, false, List, [], ◌∷◌, ◌++◌, Option, arith, ◌==◌,
  if◌then◌else◌,
}
use b_routine.Distributor.{
  Task, Distributor, ok, fault, out_of_bounds, TryLocks, to_list, new, registe, try_to_steal,
  steal_task_routine,
}
use b_routine.Distributor.Steal.{weigh, weigh_all, try_to_steal-perm}
use b_routine.Distributor.Visit.{steal_task_routine-last, steal_task_routine-past}
use b_routine.Distributor.RoundRobin.{add_tasks, Handed, add_tasks-Handed}

abbrev task : ℕ → Task
task id = record { id = id; is_main = false; is_progress = false }

abbrev main_task : Task
main_task = record { id = 1; is_main = true; is_progress = false }

abbrev two_tasks : List Task
two_tasks = main_task ∷ task 5 ∷ []

abbrev free : TryLocks
free = record { head = true; tail = true }

-- Two workers; the first has the tasks 5 and 6.
abbrev two : Distributor
two = record {
  active_tasks = λ i. if i == 0 then task 5 ∷ task 6 ∷ [] else [];
  workers = λ i. record { is_thread_running = true; mutex_held = false };
  size = 2;
  capacity = 2;
  cursor = 1;
}

try_to_steal-perm_example :
    Perm
      (to_list (try_to_steal free two_tasks).0 ++ (try_to_steal free two_tasks).1)
      (main_task ∷ task 5 ∷ [])
try_to_steal-perm_example = (try_to_steal-perm free two_tasks (λ e. e)).0

steal_task_routine-last_example :
    (t : Option Task) × (d' : Distributor) × (steal_task_routine 3 (λ i. free) 1 two ≡ ok (t, d'))
    × ((j : ℕ) → j < 1 → d'.active_tasks j ≡ (try_to_steal free (two.active_tasks j)).1)
    × (◌≡◌ {A = Option Task × List Task} (t, d'.active_tasks 1) (some (task 5), []))
    × (weigh (λ a. a.id) (to_list t) + weigh_all (λ a. a.id) d'.active_tasks 2 ≡ 11)
unfolding try_to_steal
steal_task_routine-last_example =
    steal_task_routine-last (λ a. a.id) 3 (λ i. free) 1 two refl (omega arith) (omega arith)
      (λ j h e. ground arith)

steal_task_routine-past_example : steal_task_routine 3 (λ i. free) 0 two ≡ fault (out_of_bounds 2)
steal_task_routine-past_example =
    steal_task_routine-past 3 (λ i. free) 0 two (omega arith) refl (omega arith)

add_tasks-Handed_example : Handed two (task 7 ∷ task 8 ∷ []) (add_tasks (task 7 ∷ task 8 ∷ []) two)
add_tasks-Handed_example =
    add_tasks-Handed (task 7 ∷ task 8 ∷ []) two (refl, (refl, tt)) (omega arith) (omega arith)
      (omega arith)

-- The only worker that a new distributor of size 1 has room for.
registe-runs :
    (d : Distributor) × (registe (record { is_thread_running = false; mutex_held = false }) (new 1)
      ≡ ok (0, d))
    × (d.size ≡ 1)
unfolding registe new
registe-runs = (
  record (new 1) {
    active_tasks = λ j. if j == 0 then [] else [];
    workers = λ j.
        if j == 0
        then record { is_thread_running = false; mutex_held = false }
        else record { is_thread_running = false; mutex_held = false };
    size = 1;
  },
  refl,
  refl,
)
