-- ===== src/Tasks/Threads.antt =====
-- Two threads on one `TaskItemsList` (src/b_task.cc): one is in `pushBack`, the other in `popHead`,
-- which it may call again. A step is a statement of the source, or a call on a mutex. The list
-- is live, and the store is that of Tasks.
pub mod Setting
pub mod Pushing
pub mod Popping
pub mod Deadlock
pub mod Locks
pub mod Waits
pub mod Next
pub mod Overlap
pub mod Position
pub mod Sequence
pub mod Fault
mod Examples
use b_routine.Base.{
  ℕ, ◌+◌, ◌≡◌, Bool, true, false, not, ◌&&◌, ◌||◌, Option, none, some, ◌==◌, ltb, if◌then◌else◌,
}
use b_routine.Tasks.{
  Ptr, null, Store, update, put_prev, put_next, put_owner, put_head, put_tail, increment, decrement,
  remove_self_from_ownerlink,
}

-- Where a thread stands in `pushBack` and `pushBackUnsafe`, with `lockHead`.
pub data PushPc : Type 0 where
  begin : PushPc
  want_head : PushPc
  want_tail : Bool → PushPc
  check : Bool → PushPc
  count_up : Bool → PushPc
  test : Bool → PushPc
  first_head : Bool → PushPc
  first_tail : Bool → PushPc
  link_next : Bool → PushPc
  link_prev : Bool → PushPc
  move_tail : Bool → PushPc
  clear_next : Bool → PushPc
  own : Bool → PushPc
  release_head : Bool → PushPc
  release_tail : PushPc
  pushed : PushPc

-- Where a thread stands in `popHead`, `popHeadUnsafe` and `RemoveSelfFromOwnerlink`, with `lockTail`
-- and the item.
pub data PopPc : Type 0 where
  start : PopPc
  lock_head : PopPc
  look : PopPc
  lock_tail : PopPc
  probe : Bool → PopPc
  count_down : Bool → PopPc
  take : Bool → PopPc
  clear_head : Bool → Ptr → PopPc
  clear_tail : Bool → Ptr → PopPc
  cut_prev : Bool → Ptr → PopPc
  move_head : Bool → Ptr → PopPc
  drop_next : Bool → Ptr → PopPc
  drop_owner : Bool → Ptr → PopPc
  unlock_head : Bool → Ptr → PopPc
  unlock_tail : Ptr → PopPc
  popped : Ptr → PopPc

-- What a thread's next statement does: it goes on, it waits for a mutex, or it uses a null or freed
-- pointer; or the call has returned.
pub data Outcome (A : Type 0) : Type 0 where
  goes : A → Store → Outcome A
  waits : Outcome A
  returned : Outcome A
  faults : Outcome A

abbrev pub on_live : {A : Type 0} → Store → Ptr → Outcome A → Outcome A
on_live s p o = if s.live p then o else faults

abbrev pub hold_head : Store → Ptr → Bool → Store
hold_head s l b = record s { head_mutex = update s.head_mutex l b }

abbrev pub hold_tail : Store → Ptr → Bool → Store
hold_tail s l b = record s { tail_mutex = update s.tail_mutex l b }

-- A statement of the thread that pushes `i`.
unfoldable pub push_step : (l i : Ptr) → PushPc → Store → Outcome PushPc
push_step l i begin s = goes (if ltb (s.item_count l) 2 then want_head else want_tail false) s
push_step l i want_head s =
    if s.head_mutex l then waits else goes (want_tail true) (hold_head s l true)
push_step l i (want_tail lh) s =
    if s.tail_mutex l then waits else goes (check lh) (hold_tail s l true)
push_step l i (check lh) s =
    if ltb (s.item_count l) 2 && not lh
    then goes begin (hold_tail s l false)
    else goes (count_up lh) s
push_step l i (count_up lh) s =
    if i == null then goes (release_head lh) s else goes (test lh) (increment s l)
push_step l i (test lh) s =
    goes (if (s.head l == null) && (s.tail l == null) then first_head lh else link_next lh) s
push_step l i (first_head lh) s = goes (first_tail lh) (put_head s l i)
push_step l i (first_tail lh) s = goes (own lh) (put_tail s l i)
push_step l i (link_next lh) s =
    on_live s (s.tail l) (goes (link_prev lh) (put_next s (s.tail l) i))
push_step l i (link_prev lh) s = on_live s i (goes (move_tail lh) (put_prev s i (s.tail l)))
push_step l i (move_tail lh) s = goes (clear_next lh) (put_tail s l i)
push_step l i (clear_next lh) s = on_live s i (goes (own lh) (put_next s i null))
push_step l i (own lh) s = on_live s i (goes (release_head lh) (put_owner s i l))
push_step l i (release_head lh) s = goes release_tail (if lh then hold_head s l false else s)
push_step l i release_tail s = goes pushed (hold_tail s l false)
push_step l i pushed s = returned

-- `RemoveSelfFromOwnerlink` up to its first write. An item that is not its list's head is taken out in
-- one step.
unfoldable pub take_step : (lt : Bool) → Ptr → Store → Outcome PopPc
take_step lt h s =
    if h == null
    then goes (unlock_head lt null) s
    else on_live s h (
        if s.owner h == null
        then goes (unlock_head lt null) s
        else if s.head (s.owner h) == h
        then goes (if h == s.tail (s.owner h) then clear_head lt h else cut_prev lt h) s
        else elim (remove_self_from_ownerlink h s) [
          | none ↦ faults
          | some (r, s') ↦ goes (unlock_head lt r) s'
        ])

-- A statement of the thread that pops.
unfoldable pub pop_step : (l : Ptr) → PopPc → Store → Outcome PopPc
unfolding take_step
pop_step l start s = goes (if s.item_count l == 0 then popped null else lock_head) s
pop_step l lock_head s = if s.head_mutex l then waits else goes look (hold_head s l true)
pop_step l look s = goes (if ltb (s.item_count l) 2 then lock_tail else probe false) s
pop_step l lock_tail s = if s.tail_mutex l then waits else goes (probe true) (hold_tail s l true)
pop_step l (probe lt) s =
    goes
      (if (s.item_count l == 0) || ((s.tail l == null) || (s.head l == null))
        then unlock_head lt null
        else count_down lt)
      s
pop_step l (count_down lt) s = goes (take lt) (decrement s l)
pop_step l (take lt) s = take_step lt (s.head l) s
pop_step l (clear_head lt i) s = goes (clear_tail lt i) (put_head s (s.owner i) null)
pop_step l (clear_tail lt i) s = goes (drop_next lt i) (put_tail s (s.owner i) null)
pop_step l (cut_prev lt i) s =
    on_live s (s.next i) (goes (move_head lt i) (put_prev s (s.next i) null))
pop_step l (move_head lt i) s = goes (drop_next lt i) (put_head s (s.owner i) (s.next i))
pop_step l (drop_next lt i) s = goes (drop_owner lt i) (put_next s i null)
pop_step l (drop_owner lt i) s = goes (unlock_head lt i) (put_owner s i null)
pop_step l (unlock_head lt r) s =
    goes (if lt then unlock_tail r else popped r) (hold_head s l false)
pop_step l (unlock_tail r) s = goes (popped r) (hold_tail s l false)
pop_step l (popped r) s = returned

pub record System : Type 0 where
  pub push : PushPc
  pub pop : PopPc
  pub store : Store

abbrev pub system : PushPc → PopPc → Store → System
system p q s = record { push = p; pop = q; store = s }

-- Either thread may go on.
pub data Step (l i : Ptr) : System → System → Type 0 where
  push_moves :
      {p p' : PushPc} {q : PopPc} {s t : Store}
      → push_step l i p s ≡ goes p' t
      → Step l i (system p q s) (system p' q t)
  pop_moves :
      {p : PushPc} {q q' : PopPc} {s t : Store}
      → pop_step l q s ≡ goes q' t
      → Step l i (system p q s) (system p q' t)

-- Runs of one call each.
pub data Once (l i : Ptr) (a : System) : System → Type 0 where
  at_start : Once l i a a
  moved : {b c : System} → Once l i a b → Step l i b c → Once l i a c

infixl 4 ◌▷◌
abbrev pub ◌▷◌ : {l i : Ptr} {a b c : System} → Once l i a b → Step l i b c → Once l i a c
r ▷ st = moved r st

-- Runs in which the popper calls again when it has returned.
pub data Reach (l i : Ptr) (a : System) : System → Type 0 where
  here : Reach l i a a
  later : {b c : System} → Reach l i a b → Step l i b c → Reach l i a c
  again :
      {p : PushPc} {r : Ptr} {s : Store}
      → Reach l i a (system p (popped r) s)
      → Reach l i a (system p start s)

infixl 4 ◌▸◌
abbrev pub ◌▸◌ : {l i : Ptr} {a b c : System} → Reach l i a b → Step l i b c → Reach l i a c
r ▸ st = later r st
