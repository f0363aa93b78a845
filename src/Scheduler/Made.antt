-- ===== src/Scheduler/Made.antt =====
-- What `bRoutine::New` makes (src/b_routine.cc).
use b_routine.Base.{
  ℕ, ◌+◌, ◌%◌, ◌^◌, ◌≡◌, ◌≢◌, refl, sym, ap, ◌⊎◌, inl, inr, true, false, List, [], ◌∷◌, none, some,
  ==_refl, ne→==, Option-cases,
}
use b_routine.Stacks.{Stack, StackPool, Os, init_sp}
use b_routine.Scheduler.{Routine, World, put, take_routine, init_stack, new_routine}

-- A routine as `New` leaves it: no flag of an earlier life is set, it has the next number and a stack
-- of the pool or a new one, its context starts on that stack with the routine for its argument, and it
-- is allocated.
pub record IsNew (os : Os) (level func args : ℕ) (w v : World) (r : ℕ) : Type 0 where
  pub code : ((v.routine r).func ≡ func) × ((v.routine r).args ≡ args)
  pub not_begun : (v.routine r).is_begin ≡ false
  pub not_done : (v.routine r).is_done ≡ false
  pub ordinary : ((v.routine r).is_main ≡ false) × ((v.routine r).is_progress ≡ false)
  pub hooked : (v.routine r).is_enable_hook ≡ true
  pub not_hung : (v.routine r).is_hangup ≡ false
  pub numbered : ((v.routine r).id ≡ (w.last_id + 1) % 2 ^ 16) × (v.last_id ≡ (v.routine r).id)
  pub starts :
      (s : Stack) × (init_stack os level w.stack_pool ≡ some (s, v.stack_pool))
      × ((v.routine r).stack ≡ some s)
      × ((v.routine r).context_sp ≡ init_sp os.page_size s)
  pub argument : (v.routine r).context_self ≡ r
  pub alive : v.allocated r ≡ true

abbrev Taken : (fresh : ℕ) (before : List ℕ) (r : ℕ) (after : List ℕ) → Type 0
Taken fresh before r after = ((before ≡ []) × (r ≡ fresh)) ⊎ (before ≡ r ∷ after)

take_routine-Taken :
    (fresh : ℕ) (l : List ℕ) → Taken fresh l (take_routine fresh l).0 (take_routine fresh l).1
unfolding take_routine
take_routine-Taken fresh [] = inl (refl, refl)
take_routine-Taken fresh (p ∷ rest) = inr refl

abbrev Makes : Os → (fresh level func args : ℕ) → World → Type 0
Makes os fresh level func args w =
    (r : ℕ) × (v : World) × (new_routine os fresh level func args w ≡ some (r, v))
    × IsNew os level func args w v r
    × ((a : ℕ) → a ≢ r → v.routine a ≡ w.routine a)
    × (v.ready ≡ w.ready)
    × Taken fresh w.routine_pool r v.routine_pool

abbrev routine_made : Os → (func args id : ℕ) → Stack → ℕ → Routine
routine_made os func args id s r = record {
  func = func;
  args = args;
  is_main = false;
  is_begin = false;
  is_done = false;
  is_hangup = false;
  is_progress = false;
  is_enable_hook = true;
  id = id;
  stack = some s;
  context_sp = init_sp os.page_size s;
  context_self = r;
}

abbrev pub made : Os → (func args : ℕ) → World → Stack → StackPool → ℕ → List ℕ → World
made os func args w s stacks r pool =
    let id = (w.last_id + 1) % 2 ^ 16 in
    record w {
      routine = put w.routine r (routine_made os func args id s r);
      allocated = put w.allocated r true;
      routine_pool = pool;
      stack_pool = stacks;
      last_id = id;
    }

made-IsNew :
    (os : Os) (level func args : ℕ) (w : World) (s : Stack) (stacks : StackPool) (r : ℕ)
    (pool : List ℕ)
    → init_stack os level w.stack_pool ≡ some (s, stacks)
    → IsNew os level func args w (made os func args w s stacks r pool) r
made-IsNew os level func args w s stacks r pool got =
    let x : Routine = routine_made os func args ((w.last_id + 1) % 2 ^ 16) s r in
    let at : (made os func args w s stacks r pool).routine r ≡ x = rw (==_refl r) refl in
    record {
      code = (ap (λ y. y.func) at, ap (λ y. y.args) at);
      not_begun = ap (λ y. y.is_begin) at;
      not_done = ap (λ y. y.is_done) at;
      ordinary = (ap (λ y. y.is_main) at, ap (λ y. y.is_progress) at);
      hooked = ap (λ y. y.is_enable_hook) at;
      not_hung = ap (λ y. y.is_hangup) at;
      numbered = (ap (λ y. y.id) at, sym (ap (λ y. y.id) at));
      argument = ap (λ y. y.context_self) at;
      starts = (s, got, ap (λ y. y.stack) at, ap (λ y. y.context_sp) at);
      alive = rw (==_refl r) refl;
    }

new_routine-Makes :
    (os : Os) (fresh level func args : ℕ) (w : World) (s : Stack) (stacks : StackPool)
    → init_stack os level w.stack_pool ≡ some (s, stacks)
    → Makes os fresh level func args w
unfolding new_routine
new_routine-Makes os fresh level func args w s stacks q =
    let (r, pool) = take_routine fresh w.routine_pool in
    (
      r,
      made os func args w s stacks r pool,
      rw (q, new_routine) refl,
      made-IsNew os level func args w s stacks r pool q,
      λ a d. rw (ne→== a (take_routine fresh w.routine_pool).0 d) refl,
      refl,
      take_routine-Taken fresh w.routine_pool,
    )

-- `New` takes the oldest pooled routine if there is one and a fresh allocation otherwise, and makes
-- it new: whatever it held, all its fields are set, to the code that is given, the next number modulo
-- 2^16, a stack of the pool or a new one and a context that starts on that stack with the routine for
-- its argument, and no flag but the hooks' is set. Every other routine stays, and nothing is made ready.
-- It fails only if no stack is to be had.
pub new_routine-IsNew :
    (os : Os) (fresh level func args : ℕ) (w : World)
    → ((init_stack os level w.stack_pool ≡ none) × (new_routine os fresh level func args w ≡ none))
      ⊎ ((r : ℕ) × (v : World) × (new_routine os fresh level func args w ≡ some (r, v))
          × IsNew os level func args w v r
          × ((a : ℕ) → a ≢ r → v.routine a ≡ w.routine a)
          × (v.ready ≡ w.ready)
          × (((w.routine_pool ≡ []) × (r ≡ fresh)) ⊎ (w.routine_pool ≡ r ∷ v.routine_pool)))
unfolding new_routine
new_routine-IsNew os fresh level func args w =
    elim (Option-cases (init_stack os level w.stack_pool)) [
      | inl q ↦ inl (q, rw (q, new_routine) refl)
      | inr ((s, stacks), q) ↦ inr (new_routine-Makes os fresh level func args w s stacks q)
    ]
