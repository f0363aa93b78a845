-- ===== src/Stacks/Examples.antt =====
-- Tests of the stacks and of their pool (src/b_stack.cc, src/b_context.cc, src/b_routine_env.cc).
use b_routine.Base.{◌+◌, ◌*◌, ◌≡◌, refl, inr, true, [], ◌∷◌, some, none}
use b_routine.Stacks.{Stack, Os, Mapping, new, empty_pool, pool_pop, mini_stack, large_stack}
use b_routine.Stacks.Layout.{new-Layout}
use b_routine.Stacks.Pool.{IsPool, pops, pushes, run, run-IsPool_empty}

abbrev system : Os
system = record { page_size = 4096; mmap = λ n. some 65536; mprotect = λ p. true }

abbrev large : Stack
large = record { stack_ptr = 65536; stack_size = 4096 * 1024 }

abbrev mapping : Mapping
mapping = record {
  base = 65536;
  bytes = 4096 * 1024 + 8192;
  low_guard = record { from = 65536; bytes = 4096 };
  high_guard = record { from = 65536 + 4096 * 1024 + 4096; bytes = 4096 };
}

new-large : new system large_stack ≡ some (large, mapping)
unfolding new
new-large = refl

new-Layout_example :
    mapping.low_guard.from + mapping.low_guard.bytes + large.stack_size ≡ mapping.high_guard.from
new-Layout_example = (new-Layout system 3 large mapping new-large).4

run-IsPool_empty_example :
    let p = run empty_pool (pushes large ∷ pops mini_stack ∷ pushes large ∷ []) in
    IsPool p × (pool_pop large_stack p ≡ (none, p))
run-IsPool_empty_example =
    run-IsPool_empty (pushes large ∷ pops mini_stack ∷ pushes large ∷ [])
      (inr (inr refl), (inr (inr refl), tt))
