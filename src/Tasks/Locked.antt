-- ===== src/Tasks/Locked.antt =====
-- The operations of src/b_task.cc and src/b_task.hh that take the two mutexes of a
-- `TaskItemsList`. Locking a mutex that is held never returns, since no other thread is modelled
-- here that would release it: the command is `none`.
pub mod Alone
pub mod Delete
pub mod Drain
use b_routine.Base.{
  ℕ, zero, suc, Bool, true, false, not, ◌&&◌, Option, none, some, ◌==◌, ltb, if◌then◌else◌,
}
use b_routine.Tasks.{
  Ptr, null, Store, Cmd, pure, ◌>>=◌, ◌>>◌, update, read, write, decrement, push_back_unsafe,
  pop_head_unsafe, remove_self_from_ownerlink, delete_item,
}

-- `pthread_mutex_lock` and `pthread_mutex_unlock` on `HeadMutex` and `TailMutex`.
abbrev pub lock_head : Ptr → Cmd (Unit {0})
lock_head l s =
    if s.head_mutex l then none else some (tt, record s { head_mutex = update s.head_mutex l true })

abbrev pub lock_tail : Ptr → Cmd (Unit {0})
lock_tail l s =
    if s.tail_mutex l then none else some (tt, record s { tail_mutex = update s.tail_mutex l true })

abbrev pub unlock_head : Ptr → Cmd (Unit {0})
unlock_head l s = some (tt, record s { head_mutex = update s.head_mutex l false })

abbrev pub unlock_tail : Ptr → Cmd (Unit {0})
unlock_tail l s = some (tt, record s { tail_mutex = update s.tail_mutex l false })

abbrev pub when : Bool → Cmd (Unit {0}) → Cmd (Unit {0})
when b m = if b then m else pure tt

-- `TaskItemsList::pushBack`. The fuel bounds the jumps to `retry`.
pub push_back : ℕ → Ptr → Ptr → Cmd (Unit {0})
push_back zero l i = λ s. none
push_back (suc fuel) l i =
    let retry = unlock_tail l >> push_back fuel l i in
    do
      c ← read (λ s. s.item_count) l
      when (ltb c 2) (lock_head l)
      lock_tail l
      c' ← read (λ s. s.item_count) l
      if ltb c' 2 && not (ltb c 2)
          then retry
          else (do push_back_unsafe l i; when (ltb c 2) (unlock_head l); unlock_tail l)

-- `TaskItemsList::popHead`.
pub pop_head : Ptr → Cmd Ptr
pop_head l = do
  c ← read (λ s. s.item_count) l
  if c == 0 then pure null else do
    lock_head l
    c' ← read (λ s. s.item_count) l
    when (ltb c' 2) (lock_tail l)
    item ← pop_head_unsafe l
    unlock_head l
    when (ltb c' 2) (unlock_tail l)
    pure item

-- `RemoveSelfFromOwnerlink_Save`. The two guards are temporaries: each is destroyed, and its mutex
-- released, at the end of its own statement.
pub remove_self_from_ownerlink_save : Ptr → Cmd Ptr
remove_self_from_ownerlink_save i = do
  o ← read (λ s. s.owner) i
  read (λ s. s.head) o >>= λ _. pure tt
  lock_head o
  unlock_head o
  o' ← read (λ s. s.owner) i
  read (λ s. s.tail) o' >>= λ _. pure tt
  lock_tail o'
  unlock_tail o'
  remove_self_from_ownerlink i

-- The loop of `TaskItemsList::pushAll2`.
pub push_all_loop : ℕ → Ptr → Ptr → Cmd (Unit {0})
push_all_loop zero this into = λ s. none
push_all_loop (suc fuel) this into =
    let round = push_all_loop fuel this into in
    do
      h ← read (λ s. s.head) this
      t ← remove_self_from_ownerlink h
      if t == null
          then pure tt
          else do write (λ s. decrement s this) this; push_back_unsafe into t; round

-- `TaskItemsList::pushAll2`. The guards are released in the opposite order.
pub push_all_to : ℕ → Ptr → Ptr → Cmd (Unit {0})
push_all_to fuel this into = do
  lock_head this
  lock_tail this
  lock_head into
  lock_tail into
  push_all_loop fuel this into
  unlock_tail into
  unlock_head into
  unlock_tail this
  unlock_head this

-- The loop of `TaskItemsList::Delete`, from the tail.
pub delete_loop : ℕ → Ptr → Cmd (Unit {0})
delete_loop zero l = λ s. none
delete_loop (suc fuel) l =
    let round = delete_loop fuel l in
    do
      e ← read (λ s. s.tail) l
      t ← remove_self_from_ownerlink e
      if t == null then pure tt else do delete_item t; round

-- `TaskItemsList::Delete`.
pub delete_list : ℕ → Ptr → Cmd (Unit {0})
delete_list fuel l = do
  lock_head l
  lock_tail l
  unlock_tail l
  unlock_head l
  delete_loop fuel l
  h ← read (λ s. s.head) l
  delete_item h
  write (λ s. record s { live = update s.live l false }) l
