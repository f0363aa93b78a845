-- ===== src/Tasks/Locked/Delete.antt =====
-- `TaskItemsList::Delete` of src/b_task.cc frees the list and every item in it.
use b_routine.Base.{
  ℕ, zero, suc, ◌<◌, ◌≡◌, ◌≢◌, refl, ◌∙◌, inl, inr, true, false, List, [], ◌∷◌, arith, some, length,
  NotIn, In, ne→==, ==_refl, append-nil, ne_of_NotIn, length-append, NotIn-split, In-split,
  Distinct-split, subst,
}
use b_routine.Tasks.{Ptr, null, Store, update, delete_item, remove_self_from_ownerlink}
use b_routine.Tasks.Segment.{IsLinked, Seg-Same, Snoc, none_left, ends, snoc, last_or-append}
use b_routine.Tasks.Remove.{remove_self_from_ownerlink-Removed}
use b_routine.Tasks.Locked.{delete_loop, delete_list}
use b_routine.Tasks.Locked.Alone.{Unlocked, with_locks, grab, drop_lock}

abbrev free : Store → Ptr → Store
free s x = record s { live = update s.live x false }

-- To free an item that is in no list leaves the list as it is.
free-IsLinked :
    (s : Store) (l x : Ptr) (xs : List Ptr)
    → IsLinked s l xs
    → l ≢ x
    → x ≢ null
    → NotIn x xs
    → IsLinked (free s x) l xs
free-IsLinked s l x xs v lx nx n = record {
  alive = let a = v.alive in ground arith;
  no_null = let z = v.no_null in ground arith;
  head = v.head;
  tail = v.tail;
  items =
      Seg-Same s (free s x) l null null xs
        (λ a i. (refl, refl, refl, rw (ne→== a x (ne_of_NotIn xs n i)))) v.items;
  distinct = v.distinct;
}

delete_end :
    (fuel : ℕ) (s : Store) (l : Ptr)
    → s.live l ≡ true
    → s.tail l ≡ null
    → delete_loop (suc fuel) l s ≡ some (tt, s)
unfolding delete_loop remove_self_from_ownerlink
delete_end fuel s l a e = ground arith

delete_item_step :
    (fuel : ℕ) (s t : Store) (l x : Ptr)
    → s.live l ≡ true
    → s.tail l ≡ x
    → x ≢ null
    → remove_self_from_ownerlink x s ≡ some (x, t)
    → t.live x ≡ true
    → delete_loop (suc fuel) l s ≡ delete_loop fuel l (free t x)
unfolding delete_loop delete_item
delete_item_step fuel s t l x a e n r b = ground arith

-- What is freed: the items of `xs`, and nothing else.
pub record Frees (s t : Store) (xs : List Ptr) : Type 0 where
  pub gone : (a : Ptr) → In a xs → t.live a ≡ false
  pub kept : (a : Ptr) → NotIn a xs → t.live a ≡ s.live a

delete_loop-Frees :
    (fuel : ℕ) (s : Store) (l : Ptr) (xs : List Ptr)
    → IsLinked s l xs
    → NotIn l xs
    → length xs < fuel
    → (t : Store) × (delete_loop fuel l s ≡ some (tt, t)) × IsLinked t l [] × Frees s t xs
delete_loop-Frees zero s l xs v n enough = absurd (omega arith)
delete_loop-Frees (suc fuel) s l xs v n enough =
    by_end (λ t. delete_loop-Frees fuel t l) (snoc xs) v n enough
  where
    by_end :
        ((t : Store) (ys : List Ptr)
          → IsLinked t l ys
          → NotIn l ys
          → length ys < fuel
          → (u : Store) × (delete_loop fuel l t ≡ some (tt, u)) × IsLinked u l [] × Frees t u ys)
        → {ys : List Ptr} → Snoc ys
        → IsLinked s l ys
        → NotIn l ys
        → length ys < suc fuel
        → (t : Store) × (delete_loop (suc fuel) l s ≡ some (tt, t)) × IsLinked t l [] × Frees s t ys
    by_end rec none_left w m k = (
      s,
      delete_end fuel s l w.alive w.tail,
      w,
      record { gone = λ a i. absurd i; kept = λ a i. refl },
    )
    by_end rec (ends ys x) w m k =
        let (t, e, r) = remove_self_from_ownerlink-Removed s l x ys [] w in
        let left = subst (IsLinked t l) (append-nil ys) r.linked in
        let (ly, lx) = NotIn-split l ys (x ∷ []) m in
        let (_, _, apart) = Distinct-split ys (x ∷ []) w.distinct in
        let nx : x ≢ null = λ q. let a = r.detached.alive in let b = left.no_null in ground arith in
        let (u, f, empty, frees) =
          rec (free t x) ys (free-IsLinked t l x ys left lx.0 nx (apart x (inl refl))) ly
            (omega (arith, length-append ys (x ∷ []))) in
        (
          u,
          delete_item_step fuel s t l x w.alive (w.tail ∙ last_or-append null ys (x ∷ [])) nx e
                r.detached.alive
              ∙ f,
          empty,
          record {
            gone = λ a i. elim (In-split a ys (x ∷ []) i) [
              | inl j ↦ frees.gone a j
              | inr (inl q) ↦ rw q (frees.kept x (apart x (inl refl)) ∙ rw (==_refl x))
              | inr (inr j) ↦ absurd j
            ];
            kept = λ a i.
                let (j, q) = NotIn-split a ys (x ∷ []) i in
                frees.kept a j ∙ rw (ne→== a x q.0) (r.alive a);
          },
        )

delete_list-run :
    (fuel : ℕ) (s t : Store) (l : Ptr)
    → Unlocked s l
    → delete_loop fuel l
        (with_locks s (drop_lock (grab s.head_mutex l) l) (drop_lock (grab s.tail_mutex l) l))
      ≡ some (tt, t)
    → t.live l ≡ true
    → t.head l ≡ null
    → delete_list fuel l s ≡ some (tt, free t l)
unfolding delete_list delete_item
delete_list-run fuel s t l u e a h = ground arith

-- `Delete` of an unlocked list ends, and frees the list and each of its items once and nothing else.
pub delete_list-Frees :
    (fuel : ℕ) (s : Store) (l : Ptr) (xs : List Ptr)
    → IsLinked s l xs
    → NotIn l xs
    → Unlocked s l
    → length xs < fuel
    → (t : Store) × (delete_list fuel l s ≡ some (tt, t)) × Frees s t (l ∷ xs)
delete_list-Frees fuel s l xs v n u enough =
    let hm = drop_lock (grab s.head_mutex l) l in
    let tm = drop_lock (grab s.tail_mutex l) l in
    let (t, e, empty, frees) =
      delete_loop-Frees fuel (with_locks s hm tm) l xs
        (record {
          alive = v.alive;
          no_null = v.no_null;
          head = v.head;
          tail = v.tail;
          items = v.items;
          distinct = v.distinct;
        })
        n enough in
    (
      free t l,
      delete_list-run fuel s t l u e empty.alive empty.head,
      record {
        gone = λ a i. elim i [
          | inl q ↦ rw (q, ==_refl l)
          | inr j ↦ rw (ne→== a l (ne_of_NotIn xs n j)) (frees.gone a j)
        ];
        kept = λ a i. rw (ne→== a l i.0) (frees.kept a i.1);
      },
    )
