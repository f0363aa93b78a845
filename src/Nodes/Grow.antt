-- ===== src/Nodes/Grow.antt =====
-- A chain of nodes with a new node at its end, and without its first node.
use b_routine.Base.{
  ℕ, ◌≡◌, refl, sym, subst, ap, ◌∙◌, ◌≢◌, inl, inr, true, false, [], ◌∷◌, ◌++◌, arith, In, NotIn,
  Distinct, append_assoc, ne_of_NotIn, Distinct-split, Distinct-append, In-append_right,
}
use b_routine.Nodes.{Nodes, Ends, update}
use b_routine.Nodes.Chain.{
  Cells, addresses, last, Chain, Same, IsChain, Chain-Same, Chain-append, Chain-split,
  addresses-append, last-append, first-front,
}

-- An address that `new` may return.
pub record IsFresh (h : Nodes) (f : ℕ) : Type 0 where
  pub unused : h.live f ≡ false
  pub nonnull : f ≢ 0

abbrev pub alone : Nodes → (f v : ℕ) → Nodes
alone h f v = record {
  live = update h.live f true;
  prev = update h.prev f 0;
  next = update h.next f 0;
  value = update (update h.value f 0) f v;
}

abbrev pub grown : Nodes → (f v t : ℕ) → Nodes
grown h f v t = record {
  live = update h.live f true;
  prev = update (update h.prev f 0) f t;
  next = update (update h.next f 0) t f;
  value = update (update h.value f 0) f v;
}

abbrev pub ends_of : (head tail : ℕ) → Ends
ends_of a b = record { head = a; tail = b }

pub Chain-live :
    (h : Nodes) (p q a : ℕ) (xs : Cells) → Chain h p q xs → In a (addresses xs) → h.live a ≡ true
Chain-live h p q a [] c i = absurd i
Chain-live h p q a ((x, v) ∷ xs) (n, c) (inl e) = ap h.live e ∙ n.3
Chain-live h p q a ((x, v) ∷ xs) (n, c) (inr i) = Chain-live h x q a xs c i

-- An address not in use is in no chain.
pub NotIn-fresh :
    (h : Nodes) (f p q : ℕ) (xs : Cells)
    → h.live f ≡ false
    → Chain h p q xs
    → NotIn f (addresses xs)
NotIn-fresh h f p q [] u c = tt
NotIn-fresh h f p q ((x, v) ∷ xs) u (n, c) =
    let a = n.3 in (ground arith, NotIn-fresh h f x q xs u c)

pub alone-IsChain :
    (h : Nodes) (f v : ℕ) (e : Ends)
    → IsChain h e []
    → IsFresh h f
    → IsChain (alone h f v) (ends_of f f) ((f, v) ∷ [])
alone-IsChain h f v e c n = record {
  no_null = let z = c.no_null in let k = n.nonnull in ground arith;
  head = refl;
  tail = refl;
  cells = ((ground arith, ground arith, ground arith, ground arith), tt);
  distinct = (tt, tt);
}

pub grown-IsChain :
    (h : Nodes) (f v b w : ℕ) (e : Ends) (xs : Cells)
    → IsChain h e (xs ++ (b, w) ∷ [])
    → IsFresh h f
    → IsChain (grown h f v b) (ends_of e.head f) ((xs ++ (b, w) ∷ []) ++ (f, v) ∷ [])
grown-IsChain h f v b w e xs c n =
    let g = grown h f v b in
    let (before, (at_b, _)) = Chain-split h 0 0 xs ((b, w) ∷ []) c.cells in
    let (bp, bn, bv, bl) = at_b in
    let whole = subst (Distinct) (addresses-append xs ((b, w) ∷ [])) c.distinct in
    let (_, _, apart) = Distinct-split (addresses xs) (b ∷ []) whole in
    let nb = apart b (inl refl) in
    let nf = NotIn-fresh h f 0 b xs n.unused before in
    let new = NotIn-fresh h f 0 0 (xs ++ (b, w) ∷ []) n.unused c.cells in
    let dead = n.unused in
    let z = c.no_null in
    let k = n.nonnull in
    record {
      no_null = ground arith;
      head = c.head ∙ sym (first-front 0 0 b w xs ((f, v) ∷ []));
      tail = sym (last-append 0 (xs ++ (b, w) ∷ []) ((f, v) ∷ []));
      cells = rw append_assoc (
          Chain-append g 0 0 xs ((b, w) ∷ (f, v) ∷ [])
            (Chain-Same h g 0 b xs
              (λ a i.
                ground (arith, ne_of_NotIn (addresses xs) nb i, ne_of_NotIn (addresses xs) nf i))
              before)
            (
              (ground arith, ground arith, ground arith, ground arith),
              ((ground arith, ground arith, ground arith, ground arith), tt),
            ));
      distinct = rw (addresses-append (xs ++ (b, w) ∷ []) ((f, v) ∷ [])) (
          Distinct-append (addresses (xs ++ (b, w) ∷ [])) (f ∷ []) c.distinct (tt, tt)
            λ a i. elim i [ inl q ↦ rw q new | inr j ↦ absurd j ]);
    }

-- `g` is `h` with the node `n` made the first, and `a`, the node before it, changed at will.
pub rest-IsChain :
    (h g : Nodes) (a v n w : ℕ) (e : Ends) (xs : Cells)
    → IsChain h e ((a, v) ∷ (n, w) ∷ xs)
    → g.live 0 ≡ false
    → (g.prev n ≡ 0) × (g.next n ≡ h.next n) × (g.value n ≡ h.value n) × (g.live n ≡ h.live n)
    → ((y : ℕ) → y ≢ a → y ≢ n → Same h g y)
    → IsChain g (ends_of n e.tail) ((n, w) ∷ xs)
rest-IsChain h g a v n w e xs c z (gp, gn, gv, gl) same =
    let ((_, bn, bv, bl), rest) = c.cells.1 in
    let (na, d) = c.distinct in
    record {
      no_null = z;
      head = refl;
      tail = c.tail;
      cells = (
        (gp, gn ∙ bn, gv ∙ bv, gl ∙ bl),
        Chain-Same h g n 0 xs
            (λ y i. same y (ne_of_NotIn (addresses xs) na.1 i) (ne_of_NotIn (addresses xs) d.0 i))
            rest,
      );
      distinct = d;
    }

-- The last node of a chain is live, and so not null.
pub IsChain-live :
    (h : Nodes) (b w : ℕ) (e : Ends) (xs : Cells)
    → IsChain h e (xs ++ (b, w) ∷ [])
    → (h.live b ≡ true) × (b ≢ 0)
IsChain-live h b w e xs c =
    let l = Chain-live h 0 0 b (xs ++ (b, w) ∷ []) c.cells (
      subst (In b) (sym (addresses-append xs ((b, w) ∷ [])))
        (In-append_right b (addresses xs) (b ∷ []) (inl refl))) in
    let z = c.no_null in (l, λ q. ground arith)

In-last : (a v : ℕ) (xs : Cells) → In (last a xs) (a ∷ addresses xs)
In-last a v [] = inl refl
In-last a v ((b, w) ∷ xs) = inr (In-last b w xs)

-- The first of several nodes is not the last.
pub last-ne : (a n w : ℕ) (xs : Cells) → NotIn a (n ∷ addresses xs) → a ≢ last n xs
last-ne a n w xs h e = ne_of_NotIn (n ∷ addresses xs) h (In-last n w xs) (sym e)
