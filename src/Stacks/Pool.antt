-- ===== src/Stacks/Pool.antt =====
-- The stack pool of src/b_routine_env.cc: its counter, its bound, and what its lists hold.
use b_routine.Base.{
  ℕ, ◌+◌, ◌*◌, ◌≤◌, ◌<◌, ◌≡◌, refl, ◌⊎◌, List, [], ◌∷◌, none, some, arith, length, length-append,
}
use b_routine.Stacks.{
  Stack, StackPool, empty_pool, pool_pop, pool_push, max_keep, mini_stack, medium_stack,
  large_stack,
}

-- A stack of one of the three sizes, in KB.
abbrev pub IsSized : Stack → Type 0
IsSized s =
    (s.stack_size ≡ 128 * 1024) ⊎ ((s.stack_size ≡ 1024 * 1024) ⊎ (s.stack_size ≡ 4096 * 1024))

-- The counter is the number of stacks that the lists hold, and at most the bound; the list of the
-- large stacks is empty.
pub record IsPool (p : StackPool) : Type 0 where
  pub counted :
      p.routine_nums ≡ length p.mini_stacks + length p.medium_stacks + length p.large_stacks
  pub bounded : p.routine_nums ≤ max_keep
  pub no_large : p.large_stacks ≡ []

pub pool_push-IsPool : (s : Stack) (p : StackPool) → IsSized s → IsPool p → IsPool (pool_push s p).1
unfolding pool_push
pool_push-IsPool s p z v =
    ground (arith, length-append p.mini_stacks (s ∷ []), length-append p.medium_stacks (s ∷ []))

pub pool_pop-IsPool : (level : ℕ) (p : StackPool) → IsPool p → IsPool (pool_pop level p).1
unfolding pool_pop
pool_pop-IsPool level p v = ground arith

-- The calls that the library makes of the pool.
pub data Call : Type 0 where
  pops : ℕ → Call
  pushes : Stack → Call

pub run : StackPool → List Call → StackPool
unfolding pool_pop pool_push
run p [] = p
run p (pops level ∷ calls) = run (pool_pop level p).1 calls
run p (pushes s ∷ calls) = run (pool_push s p).1 calls

abbrev pub AllSized : List Call → Type 0
AllSized [] = Unit {0}
AllSized (pops level ∷ calls) = AllSized calls
AllSized (pushes s ∷ calls) = IsSized s × AllSized calls

run-IsPool : (p : StackPool) (calls : List Call) → AllSized calls → IsPool p → IsPool (run p calls)
unfolding run
run-IsPool p [] z v = v
run-IsPool p (pops level ∷ calls) z v =
    run-IsPool (pool_pop level p).1 calls z (pool_pop-IsPool level p v)
run-IsPool p (pushes s ∷ calls) z v =
    run-IsPool (pool_push s p).1 calls z.1 (pool_push-IsPool s p z.0 v)

-- After any calls on a new pool, with stacks of the three sizes, the counter is the number of stacks
-- kept and at most `Max_Keep_Routines_Thread`, and a request for a large stack is never met: the
-- pool keeps none where it looks for one.
pub run-IsPool_empty :
    (calls : List Call)
    → AllSized calls
    → IsPool (run empty_pool calls)
      × (pool_pop large_stack (run empty_pool calls) ≡ (none, run empty_pool calls))
unfolding pool_pop
run-IsPool_empty calls z =
    let v =
      run-IsPool empty_pool calls z
        (record { counted = refl; bounded = omega arith; no_large = refl }) in
    (v, refused (run empty_pool calls) v.no_large)
  where
    refused : (p : StackPool) → p.large_stacks ≡ [] → pool_pop 3 p ≡ (none, p)
    refused p e = ground arith

-- A stack that the pool has taken back answers the next request for a mini stack, if it is a mini
-- stack or a large one and no mini stack was kept, and the next request for a medium stack, if it is
-- a medium one and none was kept; either way the pool is as before. So a request for 128 KB can be
-- met with 4 MB.
pub pool_pop-pool_push :
    (s : Stack) (p : StackPool)
    → p.routine_nums < max_keep
    → (((s.stack_size ≡ 128 * 1024) ⊎ (s.stack_size ≡ 4096 * 1024))
        → p.mini_stacks ≡ []
        → pool_pop mini_stack (pool_push s p).1 ≡ (some s, p))
      × (s.stack_size ≡ 1024 * 1024
          → p.medium_stacks ≡ []
          → pool_pop medium_stack (pool_push s p).1 ≡ (some s, p))
unfolding pool_pop pool_push
pool_pop-pool_push s p room = (λ z e. ground arith, λ z e. ground arith)
