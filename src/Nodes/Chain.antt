-- ===== src/Nodes/Chain.antt =====
-- What a doubly linked list of nodes stands for: its nodes with their contents, in order.
use b_routine.Base.{ℕ, ◌≡◌, refl, ap, ◌∙◌, inl, inr, true, false, List, [], ◌∷◌, ◌++◌, In, Distinct}
use b_routine.Nodes.{Nodes, Ends}

-- The address and the content of each node.
abbrev pub Cells : Type 0
Cells = List (ℕ × ℕ)

abbrev pub addresses : Cells → List ℕ
addresses [] = []
addresses ((a, v) ∷ xs) = a ∷ addresses xs

abbrev pub values : Cells → List ℕ
values [] = []
values ((a, v) ∷ xs) = v ∷ values xs

abbrev pub first : ℕ → Cells → ℕ
first q [] = q
first q ((a, v) ∷ xs) = a

abbrev pub last : ℕ → Cells → ℕ
last p [] = p
last p ((a, v) ∷ xs) = last a xs

abbrev pub Holds : Nodes → (p a v n : ℕ) → Type 0
Holds h p a v n = (h.prev a ≡ p) × (h.next a ≡ n) × (h.value a ≡ v) × (h.live a ≡ true)

abbrev pub Chain : Nodes → (p q : ℕ) → Cells → Type 0
Chain h p q [] = Unit {0}
Chain h p q ((a, v) ∷ xs) = Holds h p a v (first q xs) × Chain h a q xs

abbrev pub Same : Nodes → Nodes → ℕ → Type 0
Same h g a =
    (g.prev a ≡ h.prev a) × (g.next a ≡ h.next a) × (g.value a ≡ h.value a) × (g.live a ≡ h.live a)

pub record IsChain (h : Nodes) (e : Ends) (xs : Cells) : Type 0 where
  pub no_null : h.live 0 ≡ false
  pub head : e.head ≡ first 0 xs
  pub tail : e.tail ≡ last 0 xs
  pub cells : Chain h 0 0 xs
  pub distinct : Distinct (addresses xs)

pub Chain-Same :
    (h g : Nodes) (p q : ℕ) (xs : Cells)
    → ((a : ℕ) → In a (addresses xs) → Same h g a)
    → Chain h p q xs
    → Chain g p q xs
Chain-Same h g p q [] same c = tt
Chain-Same h g p q ((x, v) ∷ xs) same ((a, b, c, d), r) =
    let (a', b', c', d') = same x (inl refl) in
    ((a' ∙ a, b' ∙ b, c' ∙ c, d' ∙ d), Chain-Same h g x q xs (λ y i. same y (inr i)) r)

pub Chain-append :
    (h : Nodes) (p q : ℕ) (xs ys : Cells)
    → Chain h p (first q ys) xs
    → Chain h (last p xs) q ys
    → Chain h p q (xs ++ ys)
Chain-append h p q [] ys c d = d
Chain-append h p q ((a, v) ∷ []) ys (n, c) d = (n, d)
Chain-append h p q ((a, v) ∷ (b, w) ∷ xs) ys (n, c) d = (n, Chain-append h a q ((b, w) ∷ xs) ys c d)

pub Chain-split :
    (h : Nodes) (p q : ℕ) (xs ys : Cells)
    → Chain h p q (xs ++ ys)
    → Chain h p (first q ys) xs × Chain h (last p xs) q ys
Chain-split h p q [] ys c = (tt, c)
Chain-split h p q ((a, v) ∷ []) ys (n, c) = ((n, tt), c)
Chain-split h p q ((a, v) ∷ (b, w) ∷ xs) ys (n, c) =
    let (l, r) = Chain-split h a q ((b, w) ∷ xs) ys c in ((n, l), r)

pub addresses-append : (xs ys : Cells) → addresses (xs ++ ys) ≡ addresses xs ++ addresses ys
addresses-append [] ys = refl
addresses-append ((a, v) ∷ xs) ys = ap (λ l. a ∷ l) (addresses-append xs ys)

pub values-append : (xs ys : Cells) → values (xs ++ ys) ≡ values xs ++ values ys
values-append [] ys = refl
values-append ((a, v) ∷ xs) ys = ap (λ l. v ∷ l) (values-append xs ys)

pub last-append : (p : ℕ) (xs ys : Cells) → last p (xs ++ ys) ≡ last (last p xs) ys
last-append p [] ys = refl
last-append p ((a, v) ∷ xs) ys = last-append a xs ys

-- With a node behind its end a list begins where it began.
pub first-front :
    (q r a v : ℕ) (xs ys : Cells)
    → first q ((xs ++ (a, v) ∷ []) ++ ys) ≡ first r (xs ++ (a, v) ∷ [])
first-front q r a v [] ys = refl
first-front q r a v ((b, w) ∷ xs) ys = refl

pub data Snoc : Cells → Type 0 where
  none_left : Snoc []
  ends : (xs : Cells) (a v : ℕ) → Snoc (xs ++ (a, v) ∷ [])

pub snoc : (xs : Cells) → Snoc xs
snoc [] = none_left
snoc ((b, w) ∷ xs) = grow (snoc xs)
  where
    grow : {ys : Cells} → Snoc ys → Snoc ((b, w) ∷ ys)
    grow none_left = ends [] b w
    grow (ends zs a v) = ends ((b, w) ∷ zs) a v
