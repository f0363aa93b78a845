-- ===== src/Tasks/Locked/Drain.antt =====
-- `TaskItemsList::pushAll2` and `TaskItemsList::Delete` of src/b_task.cc: their loops end and move,
-- or free, every item.
use b_routine.Base.{
  ℕ, zero, suc, ◌+◌, ◌<◌, ◌≡◌, ◌≢◌, refl, sym, subst, ◌∙◌, inl, inr, true, List, [], ◌∷◌, ◌++◌,
  arith, some, length, NotIn, In, ne→==, ==_refl, append_assoc, append-nil, NotIn-append, In-split,
  ne_of_NotIn, length-append,
}
use b_routine.Tasks.{Ptr, null, u32, Store, decrement, push_back_unsafe, remove_self_from_ownerlink}
use b_routine.Tasks.Segment.{IsList, IsDetached, Same, Seg-Same, Seg-live, last_or}
use b_routine.Tasks.Unlink.{In-last_or}
use b_routine.Tasks.Remove.{remove_self_from_ownerlink-Removed}
use b_routine.Tasks.Push.{push_back_unsafe-append}
use b_routine.Tasks.Pop.{IsLinked-decrement, counted_down}
use b_routine.Tasks.Locked.{push_all_loop, push_all_to}
use b_routine.Tasks.Locked.Alone.{Unlocked, with_locks, with_locks-IsList, grab, drop_lock}

-- A list survives a change that spares its items, its two ends and its counter.
IsList-frame :
    (s t : Store) (l : Ptr) (xs : List Ptr)
    → IsList s l xs
    → ((a : Ptr) → t.live a ≡ s.live a)
    → t.head l ≡ s.head l
    → t.tail l ≡ s.tail l
    → t.item_count l ≡ s.item_count l
    → ((a : Ptr) → In a xs → Same s t a)
    → IsList t l xs
IsList-frame s t l xs v live h e c same = record {
  linked = record {
    alive = live l ∙ v.linked.alive;
    no_null = live null ∙ v.linked.no_null;
    head = h ∙ v.linked.head;
    tail = e ∙ v.linked.tail;
    items = Seg-Same s t l null null xs same v.linked.items;
    distinct = v.linked.distinct;
  };
  count = c ∙ v.count;
}

-- No item of one list is the last item of a list that shares none with it.
ne-last_or :
    (s : Store) (l b : Ptr) (xs ys : List Ptr)
    → IsList s l xs
    → ((z : Ptr) → In z xs → NotIn z ys)
    → (a : Ptr) → In a xs
    → a ≢ last_or null ys
ne-last_or s l b xs [] v apart a i e =
    let alive = Seg-live s l null null a xs v.linked.items i in
    let dead = v.linked.no_null in ground arith
ne-last_or s l b xs (y ∷ ys) v apart a i e =
    ne_of_NotIn (y ∷ ys) (apart a i) (In-last_or y ys) (sym e)

-- Two lists without a common item.
abbrev pub Apart : List Ptr → List Ptr → Type 0
Apart xs ys = ((z : Ptr) → In z xs → NotIn z ys) × ((z : Ptr) → In z ys → NotIn z xs)

Apart-moved :
    (x : Ptr) (xs ys : List Ptr) → Apart (x ∷ xs) ys → NotIn x xs → Apart xs (ys ++ x ∷ [])
Apart-moved x xs ys (there, back) new = (
  λ z i. NotIn-append z ys (x ∷ []) (there z (inr i)) (ne_of_NotIn xs new i, tt),
  λ z i. elim (In-split z ys (x ∷ []) i) [
    | inl j ↦ (back z j).1
    | inr (inl e) ↦ rw e new
    | inr (inr j) ↦ absurd j
  ],
)

step_empty :
    (fuel : ℕ) (s : Store) (a b : Ptr)
    → s.live a ≡ true
    → s.head a ≡ null
    → push_all_loop (suc fuel) a b s ≡ some (tt, s)
unfolding push_all_loop remove_self_from_ownerlink
step_empty fuel s a b l h = ground arith

step_item :
    (fuel : ℕ) (s t u : Store) (a b x : Ptr)
    → s.live a ≡ true
    → s.head a ≡ x
    → x ≢ null
    → remove_self_from_ownerlink x s ≡ some (x, t)
    → t.live a ≡ true
    → push_back_unsafe b x (decrement t a) ≡ some (tt, u)
    → push_all_loop (suc fuel) a b s ≡ push_all_loop fuel a b u
unfolding push_all_loop
step_item fuel s t u a b x l h n r k p = ground arith

-- The loop of `pushAll2` empties one list into the other, in order, and both stay counted.
push_all_loop-append :
    (xs ys : List Ptr) (fuel : ℕ) (s : Store) (a b : Ptr)
    → IsList s a xs
    → IsList s b ys
    → a ≢ b
    → Apart xs ys
    → length xs + length ys < u32
    → length xs < fuel
    → (t : Store) × (push_all_loop fuel a b s ≡ some (tt, t))
      × IsList t a []
      × IsList t b (ys ++ xs)
      × (t.head_mutex ≡ s.head_mutex)
      × (t.tail_mutex ≡ s.tail_mutex)
push_all_loop-append xs ys zero s a b v w ab apart room enough = absurd (omega arith)
push_all_loop-append [] ys (suc fuel) s a b v w ab apart room enough = (
  s,
  step_empty fuel s a b v.linked.alive v.linked.head,
  v,
  subst (IsList s b) (sym (append-nil ys)) w,
  refl,
  refl,
)
push_all_loop-append (x ∷ xs) ys (suc fuel) s a b v w ab apart room enough =
    let (t, e, r) = remove_self_from_ownerlink-Removed s a x [] xs v.linked in
    let ba : b ≢ a = λ p. ab (sym p) in
    let away = apart.0 x (inl refl) in
    let a_left : IsList (decrement t a) a xs = record {
      linked = IsLinked-decrement t a xs r.linked;
      count = counted_down t a (length xs) (r.counts a ∙ v.count) (omega arith);
    } in
    let b_kept : IsList (decrement t a) b ys =
      IsList-frame s (decrement t a) b ys w r.alive (r.heads b ba) (r.tails b ba)
        (rw (ne→== b a ba) (r.counts b)) (λ z i. r.others z (apart.1 z i)) in
    let loose : IsDetached (decrement t a) x = record {
      alive = r.detached.alive;
      no_prev = r.detached.no_prev;
      no_next = r.detached.no_next;
    } in
    let (u, p, grown, f) =
      push_back_unsafe-append (decrement t a) b x ys b_kept loose away (omega arith) in
    let a_kept : IsList u a xs =
      IsList-frame (decrement t a) u a xs a_left f.alive (f.heads a ab) (f.tails a ab)
        (f.counts a ab)
        (λ z i.
          f.items z (ne_of_NotIn xs v.linked.distinct.0 i)
            (ne-last_or s a b (x ∷ xs) ys v apart.0 z (inr i))) in
    let (end, q, empty, full, hl, tl) =
      push_all_loop-append xs (ys ++ x ∷ []) fuel u a b a_kept grown ab
        (Apart-moved x xs ys apart v.linked.distinct.0) (omega (arith, length-append ys (x ∷ [])))
        (omega arith) in
    let live_x = v.linked.items.0.3 in
    let dead = v.linked.no_null in
    (
      end,
      step_item fuel s t u a b x v.linked.alive v.linked.head (λ n. ground arith) e
            (r.alive a ∙ v.linked.alive) p
          ∙ q,
      empty,
      subst (IsList end b) (append_assoc ys (x ∷ []) xs) full,
      hl ∙ f.head_locks ∙ r.head_locks,
      tl ∙ f.tail_locks ∙ r.tail_locks,
    )

push_all_to-run :
    (fuel : ℕ) (s t : Store) (a b : Ptr)
    → a ≢ b
    → Unlocked s a
    → Unlocked s b
    → push_all_loop fuel a b
        (with_locks s (grab (grab s.head_mutex a) b) (grab (grab s.tail_mutex a) b))
      ≡ some (tt, t)
    → push_all_to fuel a b s
      ≡ some (
        tt,
        with_locks t
            (drop_lock (drop_lock t.head_mutex b) a)
            (drop_lock (drop_lock t.tail_mutex b) a),
      )
unfolding push_all_to
push_all_to-run fuel s t a b ab u w e = ground arith

-- `pushAll2` between two lists that share no item, all four mutexes free: the loop ends, the first
-- list is empty, the second holds its own items and then those of the first in order, both counters
-- are right, and the mutexes are free again.
pub push_all_to-append :
    (xs ys : List Ptr) (fuel : ℕ) (s : Store) (a b : Ptr)
    → IsList s a xs
    → IsList s b ys
    → a ≢ b
    → Apart xs ys
    → Unlocked s a
    → Unlocked s b
    → length xs + length ys < u32
    → length xs < fuel
    → (t : Store) × (push_all_to fuel a b s ≡ some (tt, t))
      × IsList t a []
      × IsList t b (ys ++ xs)
      × Unlocked t a
      × Unlocked t b
push_all_to-append xs ys fuel s a b v w ab apart fa fb room enough =
    let hm = grab (grab s.head_mutex a) b in
    let tm = grab (grab s.tail_mutex a) b in
    let (t, e, empty, full, hl, tl) =
      push_all_loop-append xs ys fuel (with_locks s hm tm) a b (with_locks-IsList s hm tm a xs v)
        (with_locks-IsList s hm tm b ys w) ab apart room enough in
    let hd = drop_lock (drop_lock t.head_mutex b) a in
    let td = drop_lock (drop_lock t.tail_mutex b) a in
    (
      with_locks t hd td,
      push_all_to-run fuel s t a b ab fa fb e,
      with_locks-IsList t hd td a [] empty,
      with_locks-IsList t hd td b (ys ++ xs) full,
      (rw (==_refl a), rw (==_refl a)),
      (ground arith, ground arith),
    )
