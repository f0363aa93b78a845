-- ===== src/Tasks/Unlink.antt =====
-- What each way through `RemoveSelfFromOwnerlink` of src/b_task.hh leaves of the store.
use b_routine.Base.{
  ◌≡◌, refl, ◌≢◌, inl, inr, true, false, List, [], ◌∷◌, ◌++◌, arith, In, NotIn, some,
}
use b_routine.Tasks.{
  Ptr, null, Store, put_prev, put_next, put_owner, put_head, put_tail, remove_self_from_ownerlink,
}
use b_routine.Tasks.Segment.{first_or, last_or, Node, Same, IsLinked, IsDetached}

abbrev pub left_none : Store → Ptr → Ptr → Store
left_none s l x = put_owner (put_next (put_tail (put_head s l null) l null) x null) x null

abbrev pub left_behind : Store → (l x n : Ptr) → Store
left_behind s l x n = put_owner (put_next (put_head (put_prev s n null) l n) x null) x null

abbrev pub left_before : Store → (l p x : Ptr) → Store
left_before s l p x = put_owner (put_prev (put_next (put_tail s l p) p null) x null) x null

abbrev pub left_round : Store → (p x n : Ptr) → Store
left_round s p x n =
    put_prev (put_next (put_prev (put_next (put_owner s x null) p n) n p) x null) x null

module _ (s : Store) (l x : Ptr) (no_null : s.live null ≡ false) (ll : s.live l ≡ true) where
  pub remove_only :
      (p n : Ptr)
      → Node s l p x n
      → s.head l ≡ x
      → s.tail l ≡ x
      → remove_self_from_ownerlink x s ≡ some (x, left_none s l x)
  unfolding remove_self_from_ownerlink
  remove_only p n (a, b, c, d) h t = ground arith

  pub remove_first :
      (p n : Ptr)
      → Node s l p x n
      → s.live n ≡ true
      → s.head l ≡ x
      → x ≢ s.tail l
      → remove_self_from_ownerlink x s ≡ some (x, left_behind s l x n)
  unfolding remove_self_from_ownerlink
  remove_first p n (a, b, c, d) e h t = ground arith

  pub remove_last :
      (p n : Ptr)
      → Node s l p x n
      → s.live p ≡ true
      → s.head l ≢ x
      → s.tail l ≡ x
      → remove_self_from_ownerlink x s ≡ some (x, left_before s l p x)
  unfolding remove_self_from_ownerlink
  remove_last p n (a, b, c, d) e h t = ground arith

  pub remove_inner :
      (p n : Ptr)
      → Node s l p x n
      → s.live p ≡ true
      → s.live n ≡ true
      → s.head l ≢ x
      → x ≢ s.tail l
      → remove_self_from_ownerlink x s ≡ some (x, left_round s p x n)
  unfolding remove_self_from_ownerlink
  remove_inner p n (a, b, c, d) e f h t = ground arith

-- The store `t` is `s` with `x` taken out of the list `l` of the items `xs`, which leaves `ys`. The
-- counter of the list is as it was.
pub record Removed (s t : Store) (l x : Ptr) (xs ys : List Ptr) : Type 0 where
  pub linked : IsLinked t l ys
  pub detached : IsDetached t x
  pub orphan : t.owner x ≡ null
  pub counts : (k : Ptr) → t.item_count k ≡ s.item_count k
  pub others : (a : Ptr) → NotIn a xs → Same s t a
  pub heads : (k : Ptr) → k ≢ l → t.head k ≡ s.head k
  pub tails : (k : Ptr) → k ≢ l → t.tail k ≡ s.tail k
  pub alive : (a : Ptr) → t.live a ≡ s.live a
  pub head_locks : t.head_mutex ≡ s.head_mutex
  pub tail_locks : t.tail_mutex ≡ s.tail_mutex

abbrev pub Removes : Store → (l x : Ptr) → (xs ys : List Ptr) → Type 0
Removes s l x xs ys =
    (t : Store) × (remove_self_from_ownerlink x s ≡ some (x, t)) × Removed s t l x xs ys

pub In-first_or :
    (q : Ptr) (x : Ptr) (xs : List Ptr) → In (first_or q (xs ++ x ∷ [])) (xs ++ x ∷ [])
In-first_or q x [] = inl refl
In-first_or q x (y ∷ xs) = inl refl

pub In-last_or : (x : Ptr) (xs : List Ptr) → In (last_or x xs) (x ∷ xs)
In-last_or x [] = inl refl
In-last_or x (y ∷ xs) = inr (In-last_or y xs)

-- The first item of a list with something behind its end is that of the list.
pub first_or-front :
    (q r p : Ptr) (xs ys : List Ptr) → first_or q ((xs ++ p ∷ []) ++ ys) ≡ first_or r (xs ++ p ∷ [])
first_or-front q r p [] ys = refl
first_or-front q r p (x ∷ xs) ys = refl
