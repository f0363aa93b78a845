-- ===== src/Tasks/Remove.antt =====
-- `RemoveSelfFromOwnerlink` of src/b_task.hh takes an item out of its list, wherever it stands.
use b_routine.Base.{
  ◌≡◌, refl, sym, subst, ◌∙◌, ◌≢◌, inl, inr, List, [], ◌∷◌, ◌++◌, arith, In, some, ==_refl, ne→==,
  Distinct-append, NotIn-split, append-nil, Distinct-split, ne_of_NotIn,
}
use b_routine.Tasks.{Ptr, null, Store, remove_self_from_ownerlink}
use b_routine.Tasks.Segment.{
  last_or, Node, IsLinked, Seg-Same, Seg-append, Seg-split, last_or-append, Snoc, none_left, ends,
  snoc,
}
use b_routine.Tasks.Unlink.{
  left_none, left_behind, left_before, left_round, remove_only, remove_first, remove_last,
  remove_inner, Removed, Removes, In-first_or, In-last_or, first_or-front,
}

Removes-only : (s : Store) (l x : Ptr) → IsLinked s l (x ∷ []) → Removes s l x (x ∷ []) []
Removes-only s l x v =
    let ((a, b, c, d), _) = v.items in
    (
      left_none s l x,
      remove_only s l x v.no_null v.alive null null (a, b, c, d) v.head v.tail,
      record {
        linked = record {
          alive = v.alive;
          no_null = v.no_null;
          head = ground arith;
          tail = ground arith;
          items = tt;
          distinct = tt;
        };
        detached = record { alive = d; no_prev = a; no_next = ground arith };
        orphan = ground arith;
        counts = λ k. refl;
        others = λ y n. ground arith;
        heads = λ k n. rw (ne→== k l n);
        tails = λ k n. rw (ne→== k l n);
        alive = λ y. refl;
        head_locks = refl;
        tail_locks = refl;
      },
    )

Removes-first :
    (s : Store) (l x n : Ptr) (xs : List Ptr)
    → IsLinked s l (x ∷ n ∷ xs)
    → Removes s l x (x ∷ n ∷ xs) (n ∷ xs)
Removes-first s l x n xs v =
    let (at_x, (at_n, rest)) = v.items in
    let (a, b, c, d) = at_x in
    let (an, bn, cn, dn) = at_n in
    let ((xn, nx), (nn, dd)) = v.distinct in
    let t = left_behind s l x n in
    let end : x ≢ last_or n xs = λ e. ne_of_NotIn (n ∷ xs) v.distinct.0 (In-last_or n xs) (sym e) in
    (
      t,
      remove_first s l x v.no_null v.alive null n at_x dn v.head (λ e. end (e ∙ v.tail)),
      record {
        linked = record {
          alive = v.alive;
          no_null = v.no_null;
          head = ground arith;
          tail = v.tail;
          items = (
            (ground arith, ground arith, ground arith, dn),
            Seg-Same s t l n null xs
                (λ y h. ground (arith, ne_of_NotIn xs nx h, ne_of_NotIn xs nn h)) rest,
          );
          distinct = (nn, dd);
        };
        detached = record { alive = d; no_prev = ground arith; no_next = ground arith };
        orphan = ground arith;
        counts = λ k. refl;
        others = λ y (yx, yr). let yn = yr.0 in ground arith;
        heads = λ k m. rw (ne→== k l m);
        tails = λ k m. refl;
        alive = λ y. refl;
        head_locks = refl;
        tail_locks = refl;
      },
    )

Removes-last :
    (s : Store) (l p x : Ptr) (xs : List Ptr)
    → IsLinked s l ((xs ++ p ∷ []) ++ x ∷ [])
    → Removes s l x ((xs ++ p ∷ []) ++ x ∷ []) (xs ++ p ∷ [])
Removes-last s l p x xs v =
    let (front, (at_x, _)) = Seg-split s l null null (xs ++ p ∷ []) (x ∷ []) v.items in
    let (before, (at_p, _)) = Seg-split s l null x xs (p ∷ []) front in
    let (_, bp, cp, dp) = at_p in
    let x_at : Node s l p x null =
      subst (λ z. Node s l z x null) (last_or-append null xs (p ∷ [])) at_x in
    let (_, _, _, d) = x_at in
    let (dd, _, apart) = Distinct-split (xs ++ p ∷ []) (x ∷ []) v.distinct in
    let (_, _, apart') = Distinct-split xs (p ∷ []) dd in
    let (nx, nxp) = NotIn-split x xs (p ∷ []) (apart x (inl refl)) in
    let ne = nxp.0 in
    let np = apart' p (inl refl) in
    let h : s.head l ≢ x = λ e.
      ne_of_NotIn (xs ++ p ∷ []) (apart x (inl refl)) (In-first_or null p xs)
        (sym (v.head ∙ first_or-front null null p xs (x ∷ [])) ∙ e) in
    let t = left_before s l p x in
    (
      t,
      remove_last s l x v.no_null v.alive p null x_at dp h
          (v.tail ∙ last_or-append null (xs ++ p ∷ []) (x ∷ [])),
      record {
        linked = record {
          alive = v.alive;
          no_null = v.no_null;
          head = v.head ∙ first_or-front null null p xs (x ∷ []);
          tail = rw (==_refl l) (sym (last_or-append null xs (p ∷ [])));
          items =
              Seg-append t l null null xs (p ∷ [])
                (Seg-Same s t l null p xs
                  (λ y i. ground (arith, ne_of_NotIn xs np i, ne_of_NotIn xs nx i)) before)
                ((ground arith, ground arith, ground arith, dp), tt);
          distinct = dd;
        };
        detached = record { alive = d; no_prev = ground arith; no_next = ground arith };
        orphan = ground arith;
        counts = λ k. refl;
        others = λ y i.
            let (i', ix) = NotIn-split y (xs ++ p ∷ []) (x ∷ []) i in
            let (_, ip) = NotIn-split y xs (p ∷ []) i' in
            let a = ix.0 in let b = ip.0 in ground arith;
        heads = λ k m. refl;
        tails = λ k m. rw (ne→== k l m);
        alive = λ y. refl;
        head_locks = refl;
        tail_locks = refl;
      },
    )

Removes-inner :
    (s : Store) (l p x n : Ptr) (xs ys : List Ptr)
    → IsLinked s l ((xs ++ p ∷ []) ++ x ∷ n ∷ ys)
    → Removes s l x ((xs ++ p ∷ []) ++ x ∷ n ∷ ys) ((xs ++ p ∷ []) ++ n ∷ ys)
Removes-inner s l p x n xs ys v =
    let (front, (at_x, (at_n, behind))) =
      Seg-split s l null null (xs ++ p ∷ []) (x ∷ n ∷ ys) v.items in
    let (before, (at_p, _)) = Seg-split s l null x xs (p ∷ []) front in
    let (ap', bp, cp, dp) = at_p in
    let (an, bn, cn, dn) = at_n in
    let x_at : Node s l p x n =
      subst (λ z. Node s l z x n) (last_or-append null xs (p ∷ [])) at_x in
    let (_, _, _, d) = x_at in
    let (dd, de, apart) = Distinct-split (xs ++ p ∷ []) (x ∷ n ∷ ys) v.distinct in
    let (_, _, apart') = Distinct-split xs (p ∷ []) dd in
    let (nx, nxp) = NotIn-split x xs (p ∷ []) (apart x (inl refl)) in
    let (nn, nnp) = NotIn-split n xs (p ∷ []) (apart n (inr (inl refl))) in
    let xp = nxp.0 in
    let pn = nnp.0 in
    let ((xn, xys), (nys, _)) = de in
    let np = apart' p (inl refl) in
    let py : (y : Ptr) → In y ys → y ≢ p =
      λ y i. (NotIn-split y xs (p ∷ []) (apart y (inr (inr i)))).1.0 in
    let h : s.head l ≢ x = λ e.
      ne_of_NotIn (xs ++ p ∷ []) (apart x (inl refl)) (In-first_or null p xs)
        (sym (v.head ∙ first_or-front null null p xs (x ∷ n ∷ ys)) ∙ e) in
    let end : x ≢ s.tail l = λ e.
      ne_of_NotIn (n ∷ ys) de.0 (In-last_or n ys)
        (sym (e ∙ v.tail ∙ last_or-append null (xs ++ p ∷ []) (x ∷ n ∷ ys))) in
    let t = left_round s p x n in
    (
      t,
      remove_inner s l x v.no_null v.alive p n x_at dp dn h end,
      record {
        linked = record {
          alive = v.alive;
          no_null = v.no_null;
          head =
              v.head
              ∙ first_or-front null null p xs (x ∷ n ∷ ys)
              ∙ sym (first_or-front null null p xs (n ∷ ys));
          tail =
              v.tail
              ∙ last_or-append null (xs ++ p ∷ []) (x ∷ n ∷ ys)
              ∙ sym (last_or-append null (xs ++ p ∷ []) (n ∷ ys));
          items =
              Seg-append t l null null (xs ++ p ∷ []) (n ∷ ys)
                (Seg-append t l null n xs (p ∷ [])
                  (Seg-Same s t l null p xs
                    (λ y i.
                      ground (arith, ne_of_NotIn xs np i, ne_of_NotIn xs nx i, ne_of_NotIn xs nn i))
                    before)
                  ((ground arith, ground arith, ground arith, dp), tt))
                (rw (last_or-append null xs (p ∷ [])) (
                  (ground arith, ground arith, ground arith, dn),
                  Seg-Same s t l n null ys
                      (λ y i. ground (arith, ne_of_NotIn ys xys i, ne_of_NotIn ys nys i, py y i))
                      behind,
                ));
          distinct = Distinct-append (xs ++ p ∷ []) (n ∷ ys) dd de.1 (λ y i. apart y (inr i));
        };
        detached = record { alive = d; no_prev = ground arith; no_next = ground arith };
        orphan = ground arith;
        counts = λ k. refl;
        others = λ y i.
            let (i', ix) = NotIn-split y (xs ++ p ∷ []) (x ∷ n ∷ ys) i in
            let (_, ip) = NotIn-split y xs (p ∷ []) i' in
            let a = ix.0 in let b = ip.0 in let c = ix.1.0 in ground arith;
        heads = λ k m. refl;
        tails = λ k m. refl;
        alive = λ y. refl;
        head_locks = refl;
        tail_locks = refl;
      },
    )

-- From whatever place an item is taken, the removal unlinks exactly that item, detaches it, keeps
-- the order of the rest and touches no other item, list or counter.
pub remove_self_from_ownerlink-Removed :
    (s : Store) (l x : Ptr) (xs ys : List Ptr)
    → IsLinked s l (xs ++ x ∷ ys)
    → (t : Store) × (remove_self_from_ownerlink x s ≡ some (x, t))
      × Removed s t l x (xs ++ x ∷ ys) (xs ++ ys)
remove_self_from_ownerlink-Removed s l x xs ys v = by_place (snoc xs) ys v
  where
    by_place :
        {zs : List Ptr}
        → Snoc zs
        → (bs : List Ptr) → IsLinked s l (zs ++ x ∷ bs)
        → Removes s l x (zs ++ x ∷ bs) (zs ++ bs)
    by_place none_left [] w = Removes-only s l x w
    by_place none_left (n ∷ bs) w = Removes-first s l x n bs w
    by_place (ends zs p) [] w =
        subst (Removes s l x ((zs ++ p ∷ []) ++ x ∷ [])) (sym (append-nil (zs ++ p ∷ [])))
          (Removes-last s l p x zs w)
    by_place (ends zs p) (n ∷ bs) w = Removes-inner s l p x n zs bs w
