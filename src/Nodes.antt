-- ===== src/Nodes.antt =====
-- The nodes of the two small linked lists of the library, `List<T>::ListNode` of
-- src/b_routine_env.h and `bMutexCondTask` of src/b_mutex_cond.h: both have a link to either side
-- and one pointer of content. Pointers are numbers and 0 is the null pointer; `none` is a fault.
pub mod Chain
pub mod Grow
use b_routine.Base.{ℕ, Bool, Option, none, some, true, false, ◌==◌, if◌then◌else◌}

pub record Nodes : Type 0 where
  pub live : ℕ → Bool
  pub prev : ℕ → ℕ
  pub next : ℕ → ℕ
  pub value : ℕ → ℕ

-- The two ends that the list structs keep.
pub record Ends : Type 0 where
  pub head : ℕ
  pub tail : ℕ

abbrev pub update {ℓ} : {A : Type ℓ} → (ℕ → A) → ℕ → A → ℕ → A
update f p v a = if a == p then v else f a

abbrev pub Cmd : Type 0 → Type 0
Cmd A = Nodes → Option (A × Nodes)

abbrev pub pure : {A : Type 0} → A → Cmd A
pure a h = some (a, h)

module _ {A B : Type 0} where
  abbrev pub and_then : Option (A × Nodes) → (A → Cmd B) → Option (B × Nodes)
  and_then none k = none
  and_then (some (a, h)) k = k a h

  infixl 5 ◌>>=◌
  abbrev pub ◌>>=◌ : Cmd A → (A → Cmd B) → Cmd B
  m >>= k = λ h. and_then (m h) k

infixl 5 ◌>>◌
abbrev pub ◌>>◌ : {B : Type 0} → Cmd (Unit {0}) → Cmd B → Cmd B
m >> k = m >>= λ _. k

abbrev pub read : (Nodes → ℕ → ℕ) → ℕ → Cmd ℕ
read field p h = if h.live p then some (field h p, h) else none

abbrev pub set_next : ℕ → ℕ → Cmd (Unit {0})
set_next p v h = if h.live p then some (tt, record h { next = update h.next p v }) else none

abbrev pub set_prev : ℕ → ℕ → Cmd (Unit {0})
set_prev p v h = if h.live p then some (tt, record h { prev = update h.prev p v }) else none

abbrev pub set_value : ℕ → ℕ → Cmd (Unit {0})
set_value p v h = if h.live p then some (tt, record h { value = update h.value p v }) else none

-- `new`, at the address that it returns: the members start as null.
abbrev pub allocate : ℕ → Cmd ℕ
allocate fresh h = some (
  fresh,
  record h {
    live = update h.live fresh true;
    prev = update h.prev fresh 0;
    next = update h.next fresh 0;
    value = update h.value fresh 0;
  },
)

abbrev pub delete : ℕ → Cmd (Unit {0})
delete p h = if h.live p then some (tt, record h { live = update h.live p false }) else none
