-- ===== src/Distributor/Visit.antt =====
-- Which ready lists the loop of `stealTaskRoutine` (src/b_routine_env.cc) visits.
use native.Mathlib.Nat.{mod-eq_of_lt, mod_self}
use b_routine.Base.{
  none, some, ℕ, zero, suc, ◌+◌, ◌-◌, ◌%◌, ◌<◌, ◌≤◌, ◌≡◌, ◌≢◌, refl, ap, ◌∙◌, List, [], ◌∷◌, ◌++◌,
  Option, arith, ne→==, ==_refl,
}
use b_routine.Distributor.{
  Task, Distributor, out_of_bounds, ok, fault, TryLocks, to_list, try_to_steal, steal_from,
  steal_loop, pop_head, steal_task_routine,
}
use b_routine.Distributor.Steal.{IsLoneMain, weigh, weigh_all, weigh_all-put}
use b_routine.Distributor.Loop.{stolen, steal_loop-Visits, go_on}

-- `popHead` takes the first task, if there is one.
abbrev pub first : List Task → Option Task × List Task
first [] = (none, [])
first (a ∷ l) = (some a, l)

pop_head-first :
    (self : ℕ) (d : Distributor)
    → (((pop_head self d).0, (pop_head self d).1.active_tasks self) ≡ first (d.active_tasks self))
      × ((j : ℕ) → j ≢ self → (pop_head self d).1.active_tasks j ≡ d.active_tasks j)
unfolding pop_head
pop_head-first self d = by_list (d.active_tasks self) refl
  where
    by_list :
        (l : List Task)
        → d.active_tasks self ≡ l
        → (((pop_head self d).0, (pop_head self d).1.active_tasks self)
            ≡ first (d.active_tasks self))
          × ((j : ℕ) → j ≢ self → (pop_head self d).1.active_tasks j ≡ d.active_tasks j)
    by_list [] e = (rw (e, pop_head) (ap (λ l. (none, l)) e), λ j n. rw (e, pop_head) refl)
    by_list (a ∷ l) e =
        (rw (e, pop_head, ==_refl self) refl, λ j n. rw (e, pop_head, ne→== j self n) refl)

weigh-pop_head :
    (w : Task → ℕ) (self n : ℕ) (d : Distributor)
    → self < n
    → weigh w (to_list (pop_head self d).0) + weigh_all w (pop_head self d).1.active_tasks n
      ≡ weigh_all w d.active_tasks n
unfolding pop_head
weigh-pop_head w self n d h = by_list (d.active_tasks self) refl
  where
    by_list :
        (l : List Task)
        → d.active_tasks self ≡ l
        → weigh w (to_list (pop_head self d).0) + weigh_all w (pop_head self d).1.active_tasks n
          ≡ weigh_all w d.active_tasks n
    by_list [] e = rw (e, pop_head) (omega arith)
    by_list (a ∷ l) e =
        let split = weigh_all-put w d.active_tasks self n l h in
        let whole : weigh w (d.active_tasks self) ≡ w a + weigh w l = rw e in
        rw (e, pop_head) (omega arith)

routine-ok :
    (fuel : ℕ) (locks : ℕ → TryLocks) (self : ℕ) (d d' : Distributor)
    → steal_loop fuel locks self ((self + 1) % d.size) d ≡ ok d'
    → steal_task_routine fuel locks self d ≡ ok ((pop_head self d').0, (pop_head self d').1)
unfolding steal_task_routine
routine-ok fuel locks self d d' e = rw (e, steal_task_routine) refl

-- The worker with the highest number visits each other ready list once, in order from the list 0 on, and
-- comes back: on fuel above the number of workers the call ends without a fault. Each other list is left
-- as `Try2stealTask` leaves it. The tasks that it answers stand in that order behind the worker's own, of
-- which the call then takes the first. No task is lost, doubled or made up, whatever weight the tasks
-- are counted with. Every worker's entry is allocated, and the main routine's task is alone in no other
-- list.
pub steal_task_routine-last :
    (w : Task → ℕ) (fuel : ℕ) (locks : ℕ → TryLocks) (self : ℕ) (d : Distributor)
    → self + 1 ≡ d.size
    → d.size ≤ d.capacity
    → d.size < fuel
    → ((j : ℕ) → j < self → ¬ IsLoneMain (d.active_tasks j))
    → (t : Option Task) × (d' : Distributor) × (steal_task_routine fuel locks self d ≡ ok (t, d'))
      × ((j : ℕ) → j < self → d'.active_tasks j ≡ (try_to_steal (locks j) (d.active_tasks j)).1)
      × ((t, d'.active_tasks self)
          ≡ first (d.active_tasks self ++ stolen locks d.active_tasks 0 self))
      × (weigh w (to_list t) + weigh_all w d'.active_tasks d.size
          ≡ weigh_all w d.active_tasks d.size)
steal_task_routine-last w fuel locks self d last room enough lone =
    let begin : (self + 1) % d.size ≡ 0 = rw last (mod_self d.size) in
    let (d', e, v) =
      steal_loop-Visits w self fuel locks self 0 d (omega arith) (omega arith) (omega arith) room
        (λ j p q. lone j q) in
    let (taken, others) = pop_head-first self d' in
    (
      (pop_head self d').0,
      (pop_head self d').1,
      routine-ok fuel locks self d d' (ap (λ k. steal_loop fuel locks self k d) begin ∙ e),
      λ j h. others j (omega arith) ∙ v.left j (omega arith) h,
      taken ∙ ap first v.got,
      weigh-pop_head w self d.size d' (omega arith) ∙ v.weight,
    )

steal_loop-past :
    (k fuel : ℕ) (locks : ℕ → TryLocks) (self id : ℕ) (d : Distributor)
    → self < id
    → id + k ≡ d.size
    → d.size ≡ d.capacity
    → k < fuel
    → steal_loop fuel locks self id d ≡ fault (out_of_bounds d.capacity)
unfolding steal_loop steal_from
steal_loop-past k zero locks self id d a e c f = elim f [ ]
steal_loop-past zero (suc fuel) locks self id d a e c f = ground arith
steal_loop-past (suc k) (suc fuel) locks self id d a e c f =
    go_on fuel locks self id d (omega arith) (omega arith) (omega arith)
    ∙ steal_loop-past k fuel locks self (id + 1) (steal_from (locks id) self id d) (omega arith)
        (omega arith) c (omega arith)

-- Every other worker runs past the end: the index is never taken modulo the number of workers, so
-- with all of them registered the loop reads the entry behind the last one allocated.
pub steal_task_routine-past :
    (fuel : ℕ) (locks : ℕ → TryLocks) (self : ℕ) (d : Distributor)
    → self + 1 < d.size
    → d.size ≡ d.capacity
    → d.size < fuel
    → steal_task_routine fuel locks self d ≡ fault (out_of_bounds d.capacity)
unfolding steal_task_routine
steal_task_routine-past fuel locks self d inner full enough =
    let begin : (self + 1) % d.size ≡ self + 1 = mod-eq_of_lt inner in
    rw (
      begin,
      steal_loop-past (d.size - (self + 1)) fuel locks self (self + 1) d (omega arith) (omega arith)
          full (omega arith),
      steal_task_routine,
    )
