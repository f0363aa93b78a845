-- ===== src/Tasks/Pop.antt =====
-- `TaskItemsList::popHeadUnsafe` of src/b_task.cc, and what a bare `RemoveSelfFromOwnerlink` leaves
-- of the counter.
use b_routine.Base.{
  ℕ, suc, ◌+◌, ◌<◌, ◌≡◌, ◌∙◌, true, false, List, [], ◌∷◌, ◌++◌, arith, some, length, length-append,
  Option, ==_refl,
}
use b_routine.Tasks.{Ptr, null, u32, Store, decrement, pop_head_unsafe, remove_self_from_ownerlink}
use b_routine.Tasks.Segment.{IsLinked, IsList, Seg-live, last_or}
use b_routine.Tasks.Unlink.{Removed, In-last_or}
use b_routine.Tasks.Remove.{remove_self_from_ownerlink-Removed}

pub counted_down :
    (s : Store) (l : Ptr) (n : ℕ)
    → s.item_count l ≡ suc n
    → suc n < u32
    → (decrement s l).item_count l ≡ n
counted_down s l n c r = rw (==_refl l) (omega arith)

-- A list is linked whatever its counter and the mutexes hold.
pub IsLinked-decrement :
    (s : Store) (l : Ptr) (xs : List Ptr) → IsLinked s l xs → IsLinked (decrement s l) l xs
IsLinked-decrement s l xs v = record {
  alive = v.alive;
  no_null = v.no_null;
  head = v.head;
  tail = v.tail;
  items = v.items;
  distinct = v.distinct;
}

pub pop_first :
    (s : Store) (l x e : Ptr) (n : ℕ)
    → s.live l ≡ true
    → s.live null ≡ false
    → s.head l ≡ x
    → s.tail l ≡ e
    → s.live x ≡ true
    → s.live e ≡ true
    → s.item_count l ≡ suc n
    → pop_head_unsafe l s ≡ remove_self_from_ownerlink x (decrement s l)
unfolding pop_head_unsafe
pop_first s l x e n a z h t b c d = ground arith

-- What a pop of a list of `xs` gives.
abbrev pub PopsTo : Store → Ptr → List Ptr → Option (Ptr × Store) → Type 0
PopsTo s l [] r = r ≡ some (null, s)
PopsTo s l (x ∷ xs) r =
    (t : Store) × (r ≡ some (x, t)) × IsList t l xs × Removed (decrement s l) t l x (x ∷ xs) xs

-- `popHeadUnsafe` answers null on the empty list and changes nothing; on any other it returns the
-- oldest item, detached, and the list links and counts the rest in order.
pub pop_head_unsafe-PopsTo :
    (s : Store) (l : Ptr) (xs : List Ptr)
    → IsList s l xs
    → length xs < u32
    → PopsTo s l xs (pop_head_unsafe l s)
unfolding pop_head_unsafe
pop_head_unsafe-PopsTo s l [] v room = let c = v.count in let a = v.linked.alive in ground arith
pop_head_unsafe-PopsTo s l (x ∷ xs) v room =
    let alive = Seg-live s l null null (last_or x xs) (x ∷ xs) v.linked.items (In-last_or x xs) in
    let step =
      pop_first s l x (last_or x xs) (length xs) v.linked.alive v.linked.no_null v.linked.head
        v.linked.tail v.linked.items.0.3 alive v.count in
    let (t, e, r) =
      remove_self_from_ownerlink-Removed (decrement s l) l x [] xs
        (IsLinked-decrement s l (x ∷ xs) v.linked) in
    (
      t,
      step ∙ e,
      record { linked = r.linked; count = r.counts l ∙ counted_down s l (length xs) v.count room },
      r,
    )

-- A bare `RemoveSelfFromOwnerlink` of an item of a counted list leaves the counter one too high: no
-- list of the items that remain is counted any more.
pub remove_self_from_ownerlink-stale :
    (s : Store) (l x : Ptr) (xs ys : List Ptr)
    → IsList s l (xs ++ x ∷ ys)
    → (t : Store) × (remove_self_from_ownerlink x s ≡ some (x, t))
      × IsLinked t l (xs ++ ys)
      × (t.item_count l ≡ length (xs ++ ys) + 1)
remove_self_from_ownerlink-stale s l x xs ys v =
    let (t, e, r) = remove_self_from_ownerlink-Removed s l x xs ys v.linked in
    (
      t,
      e,
      r.linked,
      omega (arith, r.counts l, v.count, length-append xs (x ∷ ys), length-append xs ys),
    )
