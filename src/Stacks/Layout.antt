-- ===== src/Stacks/Layout.antt =====
-- The layout of a mapped stack (src/b_stack.cc) and the first stack pointer in it
-- (src/b_context.cc).
use b_routine.Base.{ℕ, ◌+◌, ◌*◌, ◌%◌, ◌≤◌, ◌≡◌, ◌⊎◌, true, some, arith}
use b_routine.Stacks.{Stack, Os, Mapping, new, del, init_sp}

-- A stack that `New` makes fits its mapping: a guard page below it, a guard page above it, both
-- protected, nothing else around them, and `Del` unmaps exactly what was mapped. The size is that of
-- the level.
pub new-Layout :
    (os : Os) (level : ℕ) (s : Stack) (m : Mapping)
    → new os level ≡ some (s, m)
    → (os.mmap m.bytes ≡ some m.base)
      × (os.mprotect m.low_guard ≡ true)
      × (os.mprotect m.high_guard ≡ true)
      × (m.low_guard.from ≡ m.base)
      × (m.low_guard.from + m.low_guard.bytes + s.stack_size ≡ m.high_guard.from)
      × (m.high_guard.from + m.high_guard.bytes ≡ m.base + m.bytes)
      × (del os s ≡ (m.base, m.bytes))
      × (((level ≡ 1) × (s.stack_size ≡ 128 * 1024))
          ⊎ (((level ≡ 2) × (s.stack_size ≡ 1024 * 1024))
              ⊎ ((level ≡ 3) × (s.stack_size ≡ 4096 * 1024))))
unfolding new del
new-Layout os level s m e = ground arith

-- The first stack pointer of a coroutine is a multiple of 16 and lies between the guard pages, with
-- room above it for the return address that the switch pushes and none for a second aligned slot.
pub init_sp_bounds :
    (page : ℕ) (s : Stack)
    → 16 ≤ s.stack_size
    → (s.stack_ptr + page + s.stack_size) % 16 ≡ 0
    → (init_sp page s % 16 ≡ 0)
      × (s.stack_ptr + page ≤ init_sp page s)
      × (init_sp page s + 8 ≤ s.stack_ptr + page + s.stack_size)
      × (s.stack_ptr + page + s.stack_size ≡ init_sp page s + 16)
unfolding init_sp
init_sp_bounds page s h k = omega arith
