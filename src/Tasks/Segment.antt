-- ===== src/Tasks/Segment.antt =====
-- What a `TaskItemsList` of src/b_task.hh stands for: a segment of linked items.
use b_routine.Base.{
  ◌≡◌, refl, ap, ◌∙◌, inl, inr, true, false, List, [], ◌∷◌, ◌++◌, In, Distinct, length,
}
use b_routine.Tasks.{Ptr, null, Store}

abbrev pub first_or : Ptr → List Ptr → Ptr
first_or q [] = q
first_or q (x ∷ xs) = x

abbrev pub last_or : Ptr → List Ptr → Ptr
last_or p [] = p
last_or p (x ∷ xs) = last_or x xs

-- The item `x` of list `l` lies between `p` and `n`.
abbrev pub Node : Store → (l p x n : Ptr) → Type 0
Node s l p x n = (s.prev x ≡ p) × (s.next x ≡ n) × (s.owner x ≡ l) × (s.live x ≡ true)

-- The items `xs` follow one another behind `p` and in front of `q`.
abbrev pub Seg : Store → (l p q : Ptr) → List Ptr → Type 0
Seg s l p q [] = Unit {0}
Seg s l p q (x ∷ xs) = Node s l p x (first_or q xs) × Seg s l x q xs

-- The two stores hold the same item at an address.
abbrev pub Same : Store → Store → Ptr → Type 0
Same s t a =
    (t.prev a ≡ s.prev a) × (t.next a ≡ s.next a) × (t.owner a ≡ s.owner a) × (t.live a ≡ s.live a)

-- The list at `l` links the items `xs`, each once.
pub record IsLinked (s : Store) (l : Ptr) (xs : List Ptr) : Type 0 where
  pub alive : s.live l ≡ true
  pub no_null : s.live null ≡ false
  pub head : s.head l ≡ first_or null xs
  pub tail : s.tail l ≡ last_or null xs
  pub items : Seg s l null null xs
  pub distinct : Distinct xs

-- ... and counts them.
pub record IsList (s : Store) (l : Ptr) (xs : List Ptr) : Type 0 where
  pub linked : IsLinked s l xs
  pub count : s.item_count l ≡ length xs

-- An item in no list, as `TaskItem::New` makes it and a removal leaves it.
pub record IsDetached (s : Store) (i : Ptr) : Type 0 where
  pub alive : s.live i ≡ true
  pub no_prev : s.prev i ≡ null
  pub no_next : s.next i ≡ null

pub Seg-Same :
    (s t : Store) (l p q : Ptr) (xs : List Ptr)
    → ((a : Ptr) → In a xs → Same s t a)
    → Seg s l p q xs
    → Seg t l p q xs
Seg-Same s t l p q [] same g = tt
Seg-Same s t l p q (x ∷ xs) same ((a, b, c, d), g) =
    let (a', b', c', d') = same x (inl refl) in
    ((a' ∙ a, b' ∙ b, c' ∙ c, d' ∙ d), Seg-Same s t l x q xs (λ y h. same y (inr h)) g)

pub Seg-append :
    (s : Store) (l p q : Ptr) (xs ys : List Ptr)
    → Seg s l p (first_or q ys) xs
    → Seg s l (last_or p xs) q ys
    → Seg s l p q (xs ++ ys)
Seg-append s l p q [] ys g h = h
Seg-append s l p q (x ∷ []) ys (n, g) h = (n, h)
Seg-append s l p q (x ∷ y ∷ xs) ys (n, g) h = (n, Seg-append s l x q (y ∷ xs) ys g h)

pub Seg-split :
    (s : Store) (l p q : Ptr) (xs ys : List Ptr)
    → Seg s l p q (xs ++ ys)
    → Seg s l p (first_or q ys) xs × Seg s l (last_or p xs) q ys
Seg-split s l p q [] ys g = (tt, g)
Seg-split s l p q (x ∷ []) ys (n, g) = ((n, tt), g)
Seg-split s l p q (x ∷ y ∷ xs) ys (n, g) =
    let (a, b) = Seg-split s l x q (y ∷ xs) ys g in ((n, a), b)

pub first_or-append :
    (q : Ptr) (xs ys : List Ptr) → first_or q (xs ++ ys) ≡ first_or (first_or q ys) xs
first_or-append q [] ys = refl
first_or-append q (x ∷ xs) ys = refl

pub last_or-append : (p : Ptr) (xs ys : List Ptr) → last_or p (xs ++ ys) ≡ last_or (last_or p xs) ys
last_or-append p [] ys = refl
last_or-append p (x ∷ xs) ys = last_or-append x xs ys

pub Seg-live :
    (s : Store) (l p q a : Ptr) (xs : List Ptr) → Seg s l p q xs → In a xs → s.live a ≡ true
Seg-live s l p q a [] g h = absurd h
Seg-live s l p q a (x ∷ xs) (n, g) (inl e) = ap s.live e ∙ n.3
Seg-live s l p q a (x ∷ xs) (n, g) (inr h) = Seg-live s l x q a xs g h

-- A list that is not empty has a last item.
pub data Snoc : List Ptr → Type 0 where
  none_left : Snoc []
  ends : (xs : List Ptr) (x : Ptr) → Snoc (xs ++ x ∷ [])

pub snoc : (xs : List Ptr) → Snoc xs
snoc [] = none_left
snoc (x ∷ xs) = grow (snoc xs)
  where
    grow : {ys : List Ptr} → Snoc ys → Snoc (x ∷ ys)
    grow none_left = ends [] x
    grow (ends zs z) = ends (x ∷ zs) z
