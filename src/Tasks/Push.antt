-- ===== src/Tasks/Push.antt =====
-- `TaskItemsList::pushBackUnsafe` of src/b_task.cc appends to the linked items.
use b_routine.Base.{
  ◌+◌, ◌<◌, ◌≡◌, refl, sym, ◌∙◌, ◌≢◌, inl, inr, true, false, List, [], ◌∷◌, ◌++◌, arith, NotIn,
  some, In-append_right, length, length-append, ==_refl, ne→==, Distinct-append, NotIn-split,
  append_assoc, Distinct-split, ne_of_NotIn,
}
use b_routine.Tasks.{
  Ptr, null, u32, Store, put_prev, put_next, put_owner, put_head, put_tail, increment,
  push_back_unsafe,
}
use b_routine.Tasks.Segment.{
  last_or, Same, IsLinked, IsList, IsDetached, Seg-Same, Seg-append, Seg-split, first_or-append,
  last_or-append, Seg-live, Snoc, none_left, ends, snoc,
}

abbrev pushed_first : Store → Ptr → Ptr → Store
pushed_first s l i = put_owner (put_tail (put_head (increment s l) l i) l i) i l

abbrev pub pushed_behind : Store → Ptr → Ptr → Ptr → Store
pushed_behind s l t i =
    put_owner (put_next (put_tail (put_prev (put_next (increment s l) t i) i t) l i) i null) i l

push_first :
    (s : Store) (l i : Ptr)
    → s.live null ≡ false
    → s.live l ≡ true
    → s.live i ≡ true
    → s.head l ≡ null
    → s.tail l ≡ null
    → push_back_unsafe l i s ≡ some (tt, pushed_first s l i)
unfolding push_back_unsafe
push_first s l i n a b h t = ground arith

pub push_behind :
    (s : Store) (l i t : Ptr)
    → s.live null ≡ false
    → s.live l ≡ true
    → s.live i ≡ true
    → s.live t ≡ true
    → s.tail l ≡ t
    → push_back_unsafe l i s ≡ some (tt, pushed_behind s l t i)
unfolding push_back_unsafe
push_behind s l i t n a b c e = ground arith

-- The list with `i` behind its last item `b`.
behind-IsLinked :
    (s : Store) (l i b : Ptr) (xs : List Ptr)
    → IsLinked s l (xs ++ b ∷ [])
    → s.live i ≡ true
    → NotIn i (xs ++ b ∷ [])
    → IsLinked (pushed_behind s l b i) l ((xs ++ b ∷ []) ++ i ∷ [])
behind-IsLinked s l i b xs v li new =
    let t = pushed_behind s l b i in
    let (front, at_b) = Seg-split s l null null xs (b ∷ []) v.items in
    let ((bp, bn, bo, bl), _) = at_b in
    let (nx, nbs) = NotIn-split i xs (b ∷ []) new in
    let nb = nbs.0 in
    let (_, _, apart) = Distinct-split xs (b ∷ []) v.distinct in
    let bx = apart b (inl refl) in
    record {
      alive = v.alive;
      no_null = v.no_null;
      head =
          v.head
          ∙ first_or-append null xs (b ∷ [])
          ∙ sym (first_or-append null (xs ++ b ∷ []) (i ∷ []) ∙ first_or-append i xs (b ∷ []));
      tail = rw (==_refl l) (sym (last_or-append null (xs ++ b ∷ []) (i ∷ [])));
      items = rw append_assoc (
          Seg-append t l null null xs (b ∷ i ∷ [])
            (Seg-Same s t l null b xs
              (λ a h. ground (arith, ne_of_NotIn xs bx h, ne_of_NotIn xs nx h)) front)
            (
              (ground arith, ground arith, ground arith, bl),
              ((ground arith, ground arith, ground arith, li), tt),
            ));
      distinct =
          Distinct-append (xs ++ b ∷ []) (i ∷ []) v.distinct (tt, tt)
            λ a h. elim h [ inl e ↦ rw e new | inr f ↦ absurd f ];
    }

first-IsLinked :
    (s : Store) (l i : Ptr)
    → IsLinked s l []
    → IsDetached s i
    → IsLinked (pushed_first s l i) l (i ∷ [])
first-IsLinked s l i v d = record {
  alive = v.alive;
  no_null = v.no_null;
  head = ground arith;
  tail = ground arith;
  items = ((d.no_prev, d.no_next, ground arith, d.alive), tt);
  distinct = (tt, tt);
}

counted :
    (s : Store) (l : Ptr) (xs : List Ptr) (i : Ptr)
    → s.item_count l ≡ length xs
    → length xs + 1 < u32
    → (increment s l).item_count l ≡ length (xs ++ i ∷ [])
counted s l xs i c r = rw (==_refl l) (omega (arith, length-append xs (i ∷ [])))

-- What a push leaves alone: every item but the new one and the last, and every other list.
pub record PushFrame (s t : Store) (l i : Ptr) (xs : List Ptr) : Type 0 where
  pub items : (a : Ptr) → a ≢ i → a ≢ last_or null xs → Same s t a
  pub heads : (k : Ptr) → k ≢ l → t.head k ≡ s.head k
  pub tails : (k : Ptr) → k ≢ l → t.tail k ≡ s.tail k
  pub counts : (k : Ptr) → k ≢ l → t.item_count k ≡ s.item_count k
  pub alive : (a : Ptr) → t.live a ≡ s.live a
  pub head_locks : t.head_mutex ≡ s.head_mutex
  pub tail_locks : t.tail_mutex ≡ s.tail_mutex

-- `pushBackUnsafe` of a detached item that is not in the list appends it and counts it, and it
-- touches no other item but the last one and no other list.
pub push_back_unsafe-append :
    (s : Store) (l i : Ptr) (xs : List Ptr)
    → IsList s l xs
    → IsDetached s i
    → NotIn i xs
    → length xs + 1 < u32
    → (t : Store) × (push_back_unsafe l i s ≡ some (tt, t))
      × IsList t l (xs ++ i ∷ [])
      × PushFrame s t l i xs
push_back_unsafe-append s l i xs v d new room = by_end (snoc xs) v new room
  where
    by_end :
        {ys : List Ptr}
        → Snoc ys
        → IsList s l ys
        → NotIn i ys
        → length ys + 1 < u32
        → (t : Store) × (push_back_unsafe l i s ≡ some (tt, t))
          × IsList t l (ys ++ i ∷ [])
          × PushFrame s t l i ys
    by_end none_left w n r = (
      pushed_first s l i,
      push_first s l i w.linked.no_null w.linked.alive d.alive w.linked.head w.linked.tail,
      record { linked = first-IsLinked s l i w.linked d; count = ground (arith, w.count) },
      record {
        items = λ a p q. (refl, refl, rw (ne→== a i p), refl);
        heads = λ k p. rw (ne→== k l p);
        tails = λ k p. rw (ne→== k l p);
        counts = λ k p. rw (ne→== k l p);
        alive = λ a. refl;
        head_locks = refl;
        tail_locks = refl;
      },
    )
    by_end (ends ys b) w n r = (
      pushed_behind s l b i,
      push_behind s l i b w.linked.no_null w.linked.alive d.alive
          (Seg-live s l null null b (ys ++ b ∷ []) w.linked.items
            (In-append_right b ys (b ∷ []) (inl refl)))
          (w.linked.tail ∙ last_or-append null ys (b ∷ [])),
      record {
        linked = behind-IsLinked s l i b ys w.linked d.alive n;
        count = counted s l (ys ++ b ∷ []) i w.count r;
      },
      record {
        items = λ a p q.
            let q' : a ≢ b = λ e. q (e ∙ sym (last_or-append null ys (b ∷ []))) in ground arith;
        heads = λ k p. refl;
        tails = λ k p. rw (ne→== k l p);
        counts = λ k p. rw (ne→== k l p);
        alive = λ a. refl;
        head_locks = refl;
        tail_locks = refl;
      },
    )
