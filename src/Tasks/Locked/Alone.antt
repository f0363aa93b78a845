-- ===== src/Tasks/Locked/Alone.antt =====
-- `pushBack`, `popHead` and `RemoveSelfFromOwnerlink_Save` of src/b_task.cc and src/b_task.hh with
-- both mutexes free and no other thread at work.
use mathlib.Core.Path.{fun_ext}
use b_routine.Base.{
  ℕ, suc, ◌+◌, ◌<◌, ◌≡◌, inl, inr, Bool, true, false, List, [], ◌∷◌, ◌++◌, arith, some, Option,
  length, ltb, NotIn, Bool-cases, ==_refl,
}
use b_routine.Tasks.{
  Ptr, null, u32, Store, update, pop_head_unsafe, push_back_unsafe, remove_self_from_ownerlink,
}
use b_routine.Tasks.Segment.{IsList, IsDetached}
use b_routine.Tasks.Push.{push_back_unsafe-append}
use b_routine.Tasks.Pop.{pop_head_unsafe-PopsTo}
use b_routine.Tasks.Locked.{push_back, pop_head, remove_self_from_ownerlink_save}

abbrev pub with_locks : Store → (Ptr → Bool) → (Ptr → Bool) → Store
with_locks s h t = record s { head_mutex = h; tail_mutex = t }

-- The state of the mutexes does not matter to what a list stands for.
pub with_locks-IsList :
    (s : Store) (h t : Ptr → Bool) (l : Ptr) (xs : List Ptr)
    → IsList s l xs
    → IsList (with_locks s h t) l xs
with_locks-IsList s h t l xs v = record {
  linked = record {
    alive = v.linked.alive;
    no_null = v.linked.no_null;
    head = v.linked.head;
    tail = v.linked.tail;
    items = v.linked.items;
    distinct = v.linked.distinct;
  };
  count = v.count;
}

-- With both mutexes of the list free, the removal runs in the very store that the call was made
-- in: neither mutex is held while the links are rewritten.
pub remove_self_from_ownerlink_save-unlocked :
    (s : Store) (i o : Ptr)
    → s.live i ≡ true
    → s.owner i ≡ o
    → s.live o ≡ true
    → s.head_mutex o ≡ false
    → s.tail_mutex o ≡ false
    → remove_self_from_ownerlink_save i s ≡ remove_self_from_ownerlink i s
unfolding remove_self_from_ownerlink_save
remove_self_from_ownerlink_save-unlocked s i o a e b h t =
    let free_head : update (update s.head_mutex o true) o false ≡ s.head_mutex =
      fun_ext λ p. ground arith in
    let free_tail : update (update s.tail_mutex o true) o false ≡ s.tail_mutex =
      fun_ext λ p. ground arith in
    ground (arith, free_head, free_tail)

abbrev pub grab : (Ptr → Bool) → Ptr → Ptr → Bool
grab m l = update m l true

abbrev pub drop_lock : (Ptr → Bool) → Ptr → Ptr → Bool
drop_lock m l = update m l false

-- A short list is changed under both mutexes, a longer one under the mutex of its end alone.
pub push_back_short :
    (fuel : ℕ) (s t : Store) (l i : Ptr)
    → s.live l ≡ true
    → s.head_mutex l ≡ false
    → s.tail_mutex l ≡ false
    → ltb (s.item_count l) 2 ≡ true
    → push_back_unsafe l i (with_locks s (grab s.head_mutex l) (grab s.tail_mutex l)) ≡ some (tt, t)
    → push_back (suc fuel) l i s
      ≡ some (tt, with_locks t (drop_lock t.head_mutex l) (drop_lock t.tail_mutex l))
unfolding push_back
push_back_short fuel s t l i a h k c e = ground arith

pub push_back_long :
    (fuel : ℕ) (s t : Store) (l i : Ptr)
    → s.live l ≡ true
    → s.tail_mutex l ≡ false
    → ltb (s.item_count l) 2 ≡ false
    → push_back_unsafe l i (with_locks s s.head_mutex (grab s.tail_mutex l)) ≡ some (tt, t)
    → push_back (suc fuel) l i s ≡ some (tt, with_locks t t.head_mutex (drop_lock t.tail_mutex l))
unfolding push_back
push_back_long fuel s t l i a k c e = ground arith

pop_head_short :
    (s t : Store) (l x : Ptr) (n : ℕ)
    → s.live l ≡ true
    → s.head_mutex l ≡ false
    → s.tail_mutex l ≡ false
    → s.item_count l ≡ suc n
    → ltb (s.item_count l) 2 ≡ true
    → pop_head_unsafe l (with_locks s (grab s.head_mutex l) (grab s.tail_mutex l)) ≡ some (x, t)
    → pop_head l s ≡ some (x, with_locks t (drop_lock t.head_mutex l) (drop_lock t.tail_mutex l))
unfolding pop_head
pop_head_short s t l x n a h k d c e = ground arith

pub pop_head_long :
    (s t : Store) (l x : Ptr) (n : ℕ)
    → s.live l ≡ true
    → s.head_mutex l ≡ false
    → s.item_count l ≡ suc n
    → ltb (s.item_count l) 2 ≡ false
    → pop_head_unsafe l (with_locks s (grab s.head_mutex l) s.tail_mutex) ≡ some (x, t)
    → pop_head l s ≡ some (x, with_locks t (drop_lock t.head_mutex l) t.tail_mutex)
unfolding pop_head
pop_head_long s t l x n a h d c e = ground arith

-- Both mutexes of the list are free.
abbrev pub Unlocked : Store → Ptr → Type 0
Unlocked s l = (s.head_mutex l ≡ false) × (s.tail_mutex l ≡ false)

-- With both mutexes free `pushBack` returns without a jump to `retry`; it appends the item, counts
-- it, and leaves both mutexes free.
pub push_back-append :
    (fuel : ℕ) (s : Store) (l i : Ptr) (xs : List Ptr)
    → IsList s l xs
    → Unlocked s l
    → IsDetached s i
    → NotIn i xs
    → length xs + 1 < u32
    → (t : Store) × (push_back (suc fuel) l i s ≡ some (tt, t))
      × IsList t l (xs ++ i ∷ [])
      × Unlocked t l
push_back-append fuel s l i xs v u d new room = elim (Bool-cases (ltb (s.item_count l) 2)) [
  | inl few ↦
      let (t, e, w, f) =
        push_back_unsafe-append (with_locks s (grab s.head_mutex l) (grab s.tail_mutex l)) l i xs
          (with_locks-IsList s (grab s.head_mutex l) (grab s.tail_mutex l) l xs v)
          (record { alive = d.alive; no_prev = d.no_prev; no_next = d.no_next }) new room in
      (
        with_locks t (drop_lock t.head_mutex l) (drop_lock t.tail_mutex l),
        push_back_short fuel s t l i v.linked.alive u.0 u.1 few e,
        with_locks-IsList t (drop_lock t.head_mutex l) (drop_lock t.tail_mutex l) l _ w,
        (rw (==_refl l), rw (==_refl l)),
      )
  | inr many ↦
      let (t, e, w, f) =
        push_back_unsafe-append (with_locks s s.head_mutex (grab s.tail_mutex l)) l i xs
          (with_locks-IsList s s.head_mutex (grab s.tail_mutex l) l xs v)
          (record { alive = d.alive; no_prev = d.no_prev; no_next = d.no_next }) new room in
      (
        with_locks t t.head_mutex (drop_lock t.tail_mutex l),
        push_back_long fuel s t l i v.linked.alive u.1 many e,
        with_locks-IsList t t.head_mutex (drop_lock t.tail_mutex l) l _ w,
        (rw f.head_locks u.0, rw (==_refl l)),
      )
]

-- What `popHead` gives of a list of `xs` whose mutexes are free.
abbrev pub PopsUnlocked : Store → Ptr → List Ptr → Option (Ptr × Store) → Type 0
PopsUnlocked s l [] r = r ≡ some (null, s)
PopsUnlocked s l (x ∷ xs) r =
    (t : Store) × (r ≡ some (x, t)) × IsList t l xs × IsDetached t x × Unlocked t l

-- With both mutexes free `popHead` answers null on the empty list, and otherwise the oldest item,
-- detached; the rest stays in order and counted, and both mutexes are free again.
pub pop_head-PopsUnlocked :
    (s : Store) (l : Ptr) (xs : List Ptr)
    → IsList s l xs
    → Unlocked s l
    → length xs < u32
    → PopsUnlocked s l xs (pop_head l s)
unfolding pop_head
pop_head-PopsUnlocked s l [] v u room = let a = v.linked.alive in let c = v.count in ground arith
pop_head-PopsUnlocked s l (x ∷ xs) v u room = elim (Bool-cases (ltb (s.item_count l) 2)) [
  | inl few ↦
      let (t, e, w, r) =
        pop_head_unsafe-PopsTo (with_locks s (grab s.head_mutex l) (grab s.tail_mutex l)) l (x ∷ xs)
          (with_locks-IsList s (grab s.head_mutex l) (grab s.tail_mutex l) l (x ∷ xs) v) room in
      (
        with_locks t (drop_lock t.head_mutex l) (drop_lock t.tail_mutex l),
        pop_head_short s t l x (length xs) v.linked.alive u.0 u.1 v.count few e,
        with_locks-IsList t (drop_lock t.head_mutex l) (drop_lock t.tail_mutex l) l xs w,
        record {
          alive = r.detached.alive;
          no_prev = r.detached.no_prev;
          no_next = r.detached.no_next;
        },
        (rw (==_refl l), rw (==_refl l)),
      )
  | inr many ↦
      let (t, e, w, r) =
        pop_head_unsafe-PopsTo (with_locks s (grab s.head_mutex l) s.tail_mutex) l (x ∷ xs)
          (with_locks-IsList s (grab s.head_mutex l) s.tail_mutex l (x ∷ xs) v) room in
      (
        with_locks t (drop_lock t.head_mutex l) t.tail_mutex,
        pop_head_long s t l x (length xs) v.linked.alive u.0 v.count many e,
        with_locks-IsList t (drop_lock t.head_mutex l) t.tail_mutex l xs w,
        record {
          alive = r.detached.alive;
          no_prev = r.detached.no_prev;
          no_next = r.detached.no_next;
        },
        (rw (==_refl l), rw r.tail_locks u.1),
      )
]
