-- ===== src/Tasks.antt =====
-- `TaskItem` and `TaskItemsList` of src/b_task.hh and src/b_task.cc over an explicit store.
-- Pointers are numbers and 0 is the null pointer. A store has a function for each field of the two
-- structs, so a field is read and written at an address, and `live` for what is allocated.
-- `none` is a fault (a null or freed pointer is used) or a lock that the only thread holds already.
pub mod Pop
pub mod Locked
pub mod Push
pub mod Queue
pub mod Remove
pub mod Segment
pub mod Threads
pub mod Unlink
mod Examples
use Prim.Native.Nat.{ℕ}
use b_routine.Base.{
  suc, zero, ◌+◌, ◌-◌, ◌%◌, ◌^◌, Bool, true, false, ◌&&◌, ◌||◌, Option, none, some, ◌==◌, ltb,
  if◌then◌else◌,
}

abbrev pub Ptr : Type 0
Ptr = ℕ

abbrev pub null : Ptr
null = 0

abbrev pub u32 : ℕ
u32 = 2 ^ 32

pub record Store : Type 0 where
  pub live : Ptr → Bool
  pub prev : Ptr → Ptr
  pub next : Ptr → Ptr
  pub owner : Ptr → Ptr
  pub head : Ptr → Ptr
  pub tail : Ptr → Ptr
  pub item_count : Ptr → ℕ
  pub head_mutex : Ptr → Bool
  pub tail_mutex : Ptr → Bool

abbrev pub Cmd : Type 0 → Type 0
Cmd A = Store → Option (A × Store)

abbrev pub pure : {A : Type 0} → A → Cmd A
pure a s = some (a, s)

module _ {A B : Type 0} where
  abbrev pub and_then : Option (A × Store) → (A → Cmd B) → Option (B × Store)
  and_then none k = none
  and_then (some (a, s)) k = k a s

  infixl 5 ◌>>=◌
  abbrev pub ◌>>=◌ : Cmd A → (A → Cmd B) → Cmd B
  m >>= k = λ s. and_then (m s) k

infixl 5 ◌>>◌
abbrev pub ◌>>◌ : {B : Type 0} → Cmd (Unit {0}) → Cmd B → Cmd B
m >> k = m >>= λ _. k

abbrev pub update {ℓ} : {A : Type ℓ} → (Ptr → A) → Ptr → A → Ptr → A
update f p v a = if a == p then v else f a

-- A read or a write through a pointer, a fault where the pointer is not live.
abbrev pub read : {A : Type 0} → (Store → Ptr → A) → Ptr → Cmd A
read field p s = if s.live p then some (field s p, s) else none

abbrev pub write : (Store → Store) → Ptr → Cmd (Unit {0})
write change p s = if s.live p then some (tt, change s) else none

abbrev pub put_prev : Store → Ptr → Ptr → Store
put_prev s p v = record s { prev = update s.prev p v }

abbrev pub put_next : Store → Ptr → Ptr → Store
put_next s p v = record s { next = update s.next p v }

abbrev pub put_owner : Store → Ptr → Ptr → Store
put_owner s p v = record s { owner = update s.owner p v }

abbrev pub put_head : Store → Ptr → Ptr → Store
put_head s p v = record s { head = update s.head p v }

abbrev pub put_tail : Store → Ptr → Ptr → Store
put_tail s p v = record s { tail = update s.tail p v }

-- `++ItemCount` and `--ItemCount` of a `std::atomic_uint32_t`.
abbrev pub increment : Store → Ptr → Store
increment s l = record s { item_count = update s.item_count l ((s.item_count l + 1) % u32) }

abbrev pub decrement : Store → Ptr → Store
decrement s l = record s { item_count = update s.item_count l ((s.item_count l + (u32 - 1)) % u32) }

abbrev pub set_prev : Ptr → Ptr → Cmd (Unit {0})
set_prev p v = write (λ s. put_prev s p v) p

abbrev pub set_next : Ptr → Ptr → Cmd (Unit {0})
set_next p v = write (λ s. put_next s p v) p

abbrev pub set_owner : Ptr → Ptr → Cmd (Unit {0})
set_owner p v = write (λ s. put_owner s p v) p

abbrev pub set_head : Ptr → Ptr → Cmd (Unit {0})
set_head p v = write (λ s. put_head s p v) p

abbrev pub set_tail : Ptr → Ptr → Cmd (Unit {0})
set_tail p v = write (λ s. put_tail s p v) p

-- `TaskItemsList::pushBackUnsafe`.
pub push_back_unsafe : Ptr → Ptr → Cmd (Unit {0})
push_back_unsafe l i = if i == null then pure tt else do
  write (λ s. increment s l) l
  h ← read (λ s. s.head) l
  t ← read (λ s. s.tail) l
  if (h == null) && (t == null)
      then (do set_head l i; set_tail l i)
      else (do set_next t i; set_prev i t; set_tail l i; set_next i null)
  set_owner i l

-- The three ways in which `RemoveSelfFromOwnerlink` takes an item out.
remove_head : Ptr → Ptr → Cmd Ptr
remove_head o i = do
  t ← read (λ s. s.tail) o
  if i == t
      then (do set_head o null; set_tail o null)
      else (do n ← read (λ s. s.next) i; set_prev n null; n' ← read (λ s. s.next) i; set_head o n')
  set_next i null
  set_owner i null
  pure i

remove_tail : Ptr → Ptr → Cmd Ptr
remove_tail o i = do
  p ← read (λ s. s.prev) i
  set_tail o p
  p' ← read (λ s. s.prev) i
  set_next p' null
  set_prev i null
  set_owner i null
  pure i

remove_middle : Ptr → Cmd Ptr
remove_middle i = do
  p ← read (λ s. s.prev) i
  n ← read (λ s. s.next) i
  set_owner i null
  set_next p n
  set_prev n p
  set_next i null
  set_prev i null
  pure i

remove_from_owner : Ptr → Ptr → Cmd Ptr
unfolding remove_head remove_tail remove_middle
remove_from_owner o i = if o == null then pure null else do
  h ← read (λ s. s.head) o
  if h == i
      then remove_head o i
      else do t ← read (λ s. s.tail) o; if i == t then remove_tail o i else remove_middle i

-- `RemoveSelfFromOwnerlink`.
pub remove_self_from_ownerlink : Ptr → Cmd Ptr
unfolding remove_from_owner
remove_self_from_ownerlink i =
    if i == null then pure null else do o ← read (λ s. s.owner) i; remove_from_owner o i

-- `TaskItemsList::popHeadUnsafe`.
pub pop_head_unsafe : Ptr → Cmd Ptr
pop_head_unsafe l = do
  c ← read (λ s. s.item_count) l
  t ← read (λ s. s.tail) l
  h ← read (λ s. s.head) l
  if (c == 0) || ((t == null) || (h == null))
      then pure null
      else do write (λ s. decrement s l) l; h' ← read (λ s. s.head) l; remove_self_from_ownerlink h'

-- `TaskItem::New`, with the pointer that `calloc` returns.
pub new_item : Ptr → Cmd Ptr
new_item fresh s = some (
  fresh,
  record s {
    live = update s.live fresh true;
    prev = update s.prev fresh null;
    next = update s.next fresh null;
    owner = update s.owner fresh null;
  },
)

-- `TaskItem::Delete`, that is `free`, which ignores the null pointer.
pub delete_item : Ptr → Cmd (Unit {0})
delete_item i =
    if i == null then pure tt else write (λ s. record s { live = update s.live i false }) i

-- `TaskItemsList::New`, with the pointer that `calloc` returns.
pub new_list : Ptr → Cmd Ptr
new_list fresh s = some (
  fresh,
  record s {
    live = update s.live fresh true;
    head = update s.head fresh null;
    tail = update s.tail fresh null;
    item_count = update s.item_count fresh 0;
    head_mutex = update s.head_mutex fresh false;
    tail_mutex = update s.tail_mutex fresh false;
  },
)
