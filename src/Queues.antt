-- ===== src/Queues.antt =====
-- The two small linked lists over their nodes: `List<T>` of src/b_routine_env.h, which the pools
-- keep, and `bMutexCondTaskList` of src/b_mutex_cond.h and src/b_mutex_cond.cc, which holds the
-- routines that wait for a mutex or a condition.
pub mod Pool
pub mod Wait
mod Examples
use b_routine.Base.{
  ℕ, zero, suc, ◌+◌, ◌-◌, ◌%◌, ◌^◌, Bool, true, false, Option, none, some, List, [], ◌∷◌, ◌==◌,
  if◌then◌else◌,
}
use b_routine.Nodes.{
  Nodes, Ends, Cmd, pure, ◌>>=◌, ◌>>◌, read, set_next, set_prev, set_value, allocate, delete,
}

-- `List<T>`.
pub record PoolList : Type 0 where
  pub ends : Ends
  pub size : ℕ

abbrev pub u64 : ℕ
u64 = 2 ^ 64

-- `List<T>::pop`: the value, 0 for `nullptr`, and the list.
pub pool_pop : PoolList → Cmd (ℕ × PoolList)
pool_pop l =
    if l.ends.head == 0
    then pure (0, l)
    else let size = (l.size + (u64 - 1)) % u64 in
      let i = l.ends.head in
      if l.ends.tail == l.ends.head
      then (do
        ret ← read (λ h. h.value) i
        delete i
        pure (ret, record { ends = record { head = 0; tail = 0 }; size = size }))
      else (do
        n ← read (λ h. h.next) i
        set_prev n 0
        ret ← read (λ h. h.value) i
        delete i
        pure (ret, record { ends = record { head = n; tail = l.ends.tail }; size = size }))

-- `List<T>::push`, with the address that `new` returns.
pub pool_push : ℕ → PoolList → ℕ → Cmd PoolList
pool_push fresh l val = do
  i ← allocate fresh
  let size = (l.size + 1) % u64
  if l.ends.tail == 0
      then (do set_value i val; pure (record { ends = record { head = i; tail = i }; size = size }))
      else (do
        set_next l.ends.tail i
        set_prev i l.ends.tail
        set_value i val
        pure (record { ends = record { head = l.ends.head; tail = i }; size = size }))

-- The body of `bMutexCondTaskList::add` under the list's mutex.
pub wait_add : ℕ → Ends → ℕ → Cmd Ends
wait_add fresh e routine = do
  i ← allocate fresh
  set_value i routine
  if e.tail == 0
      then pure (record { head = i; tail = i })
      else (do set_next e.tail i; set_prev i e.tail; pure (record { head = e.head; tail = i }))

-- The body of `bMutexCondTaskList::pop` under the list's mutex: the node, 0 for `NULL`. The caller
-- frees it.
pub wait_pop : Ends → Cmd (ℕ × Ends)
wait_pop e =
    if e.head == 0
    then pure (0, e)
    else if e.head == e.tail
    then pure (e.head, record { head = 0; tail = 0 })
    else do
      n ← read (λ h. h.next) e.head
      set_prev n 0
      set_next e.head 0
      pure (e.head, record { head = n; tail = e.tail })

-- What an attempt at the list's mutex finds: whether another routine holds it, and the list as the
-- others have left it.
pub record Attempt : Type 0 where
  pub held : Bool
  pub ends : Ends
  pub nodes : Nodes

-- `add` and `pop` with their jumps to `retry`: a failed attempt yields, and the next one sees the
-- list as it then is. `none` is also a call that has not got through by the last attempt.
pub add : ℕ → ℕ → List Attempt → Option (Ends × Nodes)
add fresh routine [] = none
add fresh routine (a ∷ later) =
    let again = add fresh routine later in
    if a.held then again else wait_add fresh a.ends routine a.nodes

pub pop : List Attempt → Option ((ℕ × Ends) × Nodes)
pop [] = none
pop (a ∷ later) = let again = pop later in if a.held then again else wait_pop a.ends a.nodes
