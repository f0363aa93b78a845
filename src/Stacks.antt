-- ===== src/Stacks.antt =====
-- Coroutine stacks: `bRoutineStack` of src/b_stack.h and src/b_stack.cc, `bContext::init` of
-- src/b_context.cc, and the stack pool of src/b_routine_env.cc. The size of a page and what `mmap`
-- and `mprotect` answer come from the system and are arguments. Addresses do not wrap.
pub mod Layout
pub mod Pool
mod Examples
use b_routine.Base.{
  ℕ, zero, suc, ◌+◌, ◌-◌, ◌*◌, ◌/◌, Bool, true, false, not, ◌&&◌, ◌||◌, List, [], ◌∷◌, ◌++◌, Option,
  none, some, ◌==◌, ltb, leb, if◌then◌else◌,
}

-- `MiniStackSize__` and its kin of src/b_common.h, in KB.
abbrev pub mini_stack_size : ℕ
mini_stack_size = 128

abbrev pub medium_stack_size : ℕ
medium_stack_size = 1024

abbrev pub large_stack_size : ℕ
large_stack_size = 4096

-- `Max_Keep_Routines_Thread` of src/b_common.h.
abbrev pub max_keep : ℕ
max_keep = 1000

-- `enum StackLevel`.
abbrev pub mini_stack : ℕ
mini_stack = 1

abbrev pub medium_stack : ℕ
medium_stack = 2

abbrev pub large_stack : ℕ
large_stack = 3

pub record Stack : Type 0 where
  pub stack_ptr : ℕ
  pub stack_size : ℕ

-- A call of `mprotect`: from where, and how many bytes.
pub record Protect : Type 0 where
  pub from : ℕ
  pub bytes : ℕ

-- The system as `allocateStackMemory` meets it: `none` from `mmap` is `MAP_FAILED`.
pub record Os : Type 0 where
  pub page_size : ℕ
  pub mmap : ℕ → Option ℕ
  pub mprotect : Protect → Bool

-- What `allocateStackMemory` has mapped: where, how many bytes, and the two pages that it protects.
pub record Mapping : Type 0 where
  pub base : ℕ
  pub bytes : ℕ
  pub low_guard : Protect
  pub high_guard : Protect

-- `allocateStackMemory`. `none` is its `throw`.
unfoldable pub allocate_stack_memory : Os → ℕ → Option Mapping
allocate_stack_memory os size_kb =
    let kb = if ltb size_kb mini_stack_size then mini_stack_size else size_kb in
    let bytes = kb * 1024 + 2 * os.page_size in
    elim (os.mmap bytes) [
      | none ↦ none
      | some mem ↦
          let low : Protect = record { from = mem; bytes = os.page_size } in
          let high : Protect = record {
            from = mem + kb * 1024 + os.page_size;
            bytes = os.page_size;
          } in
          if not (os.mprotect low) || not (os.mprotect high)
          then none
          else some (record { base = mem; bytes = bytes; low_guard = low; high_guard = high })
    ]

-- The size in KB of a level; `none` is "Undefined stack size".
unfoldable pub level_size : ℕ → Option ℕ
level_size level =
    if level == mini_stack
    then some mini_stack_size
    else if level == medium_stack
    then some medium_stack_size
    else if level == large_stack
    then some large_stack_size
    else none

-- `bRoutineStack::New`.
unfoldable pub new : Os → ℕ → Option (Stack × Mapping)
unfolding level_size allocate_stack_memory
new os level = elim (level_size level) [
  | none ↦ none
  | some kb ↦ elim (allocate_stack_memory os kb) [
    | none ↦ none
    | some m ↦ some (record { stack_ptr = m.base; stack_size = kb * 1024 }, m)
  ]
]

-- `bRoutineStack::Del`: the address and the number of bytes that it unmaps.
pub del : Os → Stack → ℕ × ℕ
del os s = (s.stack_ptr, s.stack_size + 2 * os.page_size)

-- The stack pointer that `bContext::init` stores: `& -16` clears the low four bits.
unfoldable pub init_sp : (page_size : ℕ) → Stack → ℕ
init_sp page_size s = (s.stack_ptr + page_size + s.stack_size - 1) / 16 * 16

-- `bUnSharedStackPool_t`. Each list is the queue of its `List<bRoutineStack>`.
pub record StackPool : Type 0 where
  pub mini_stacks : List Stack
  pub medium_stacks : List Stack
  pub large_stacks : List Stack
  pub routine_nums : ℕ

-- `bUnSharedStackPool_t::New`.
abbrev pub empty_pool : StackPool
empty_pool = record { mini_stacks = []; medium_stacks = []; large_stacks = []; routine_nums = 0 }

abbrev pub counted_off :
    Option (Stack × List Stack) → (List Stack → StackPool) → StackPool → Option Stack × StackPool
counted_off none back p = (none, p)
counted_off (some (s, rest)) back p =
    let q = back rest in (some s, record q { routine_nums = q.routine_nums - 1 })

abbrev pub front : List Stack → Option (Stack × List Stack)
front [] = none
front (s ∷ rest) = some (s, rest)

-- `bUnSharedStackPool_t::pop`.
unfoldable pub pool_pop : ℕ → StackPool → Option Stack × StackPool
pool_pop level p =
    if level == mini_stack
    then counted_off (front p.mini_stacks) (λ l. record p { mini_stacks = l }) p
    else if level == medium_stack
    then counted_off (front p.medium_stacks) (λ l. record p { medium_stacks = l }) p
    else if level == large_stack
    then counted_off (front p.large_stacks) (λ l. record p { large_stacks = l }) p
    else (none, p)

-- `bUnSharedStackPool_t::push`: its result, `none` for -1, and the pool. The case of the large
-- stacks pushes on the list of the mini stacks.
unfoldable pub pool_push : Stack → StackPool → Option ℕ × StackPool
pool_push s p =
    if leb max_keep p.routine_nums
    then (none, p)
    else let kb = s.stack_size / 1024 in
      let q =
        if kb == large_stack_size
        then record p { mini_stacks = p.mini_stacks ++ s ∷ [] }
        else if kb == medium_stack_size
        then record p { medium_stacks = p.medium_stacks ++ s ∷ [] }
        else if kb == mini_stack_size
        then record p { mini_stacks = p.mini_stacks ++ s ∷ [] }
        else p in
      (some (p.routine_nums + 1), record q { routine_nums = p.routine_nums + 1 })
