-- ===== src/Base/Lists.antt =====
-- Lists measured by native numbers, and membership in lists of numbers as recursive predicates.
use Prim.Native.Nat.{◌<◌, ℕ, suc, ◌+◌}
use mathlib.Core.Path.{◌≡◌, refl, sym}
use mathlib.Core.Logic.{◌≢◌, ◌⊎◌, inl, inr}
use mathlib.Core.List.{List, [], ◌∷◌, ◌++◌}
use native.Mathlib.Omega.{arith}
use b_routine.Base.Tests.{Bool-cases, ◌==◌, if◌then◌else◌}

module _ {ℓ} {A : Type ℓ} where
  abbrev pub length : List A → ℕ
  length [] = 0
  length (x ∷ xs) = suc (length xs)

  pub length-append : (xs ys : List A) → length (xs ++ ys) ≡ length xs + length ys
  length-append [] ys = omega arith
  length-append (x ∷ xs) ys = omega (arith, length-append xs ys)

-- `a` stands in the list.
abbrev pub In : ℕ → List ℕ → Type 0
In a [] = ⊥
In a (x ∷ xs) = (a ≡ x) ⊎ In a xs

-- `a` does not stand in the list.
abbrev pub NotIn : ℕ → List ℕ → Type 0
NotIn a [] = Unit {0}
NotIn a (x ∷ xs) = (a ≢ x) × NotIn a xs

abbrev pub Distinct : List ℕ → Type 0
Distinct [] = Unit {0}
Distinct (x ∷ xs) = NotIn x xs × Distinct xs

pub In-append_left : (a : ℕ) (xs ys : List ℕ) → In a xs → In a (xs ++ ys)
In-append_left a [] ys h = absurd h
In-append_left a (x ∷ xs) ys (inl e) = inl e
In-append_left a (x ∷ xs) ys (inr h) = inr (In-append_left a xs ys h)

pub In-append_right : (a : ℕ) (xs ys : List ℕ) → In a ys → In a (xs ++ ys)
In-append_right a [] ys h = h
In-append_right a (x ∷ xs) ys h = inr (In-append_right a xs ys h)

pub ne_of_NotIn : {a b : ℕ} (xs : List ℕ) → NotIn a xs → In b xs → b ≢ a
ne_of_NotIn [] n h = absurd h
ne_of_NotIn (x ∷ xs) n (inl e) = λ p. n.0 (ground arith)
ne_of_NotIn (x ∷ xs) n (inr h) = ne_of_NotIn xs n.1 h

pub NotIn-append : (a : ℕ) (xs ys : List ℕ) → NotIn a xs → NotIn a ys → NotIn a (xs ++ ys)
NotIn-append a [] ys h k = k
NotIn-append a (x ∷ xs) ys h k = (h.0, NotIn-append a xs ys h.1 k)

pub NotIn-split : (a : ℕ) (xs ys : List ℕ) → NotIn a (xs ++ ys) → NotIn a xs × NotIn a ys
NotIn-split a [] ys h = (tt, h)
NotIn-split a (x ∷ xs) ys h = let (l, r) = NotIn-split a xs ys h.1 in ((h.0, l), r)

-- Where two lists joined are distinct, each is, and what stands behind does not stand in front.
pub Distinct-split :
    (xs ys : List ℕ)
    → Distinct (xs ++ ys)
    → Distinct xs × Distinct ys × ((a : ℕ) → In a ys → NotIn a xs)
Distinct-split [] ys d = (tt, d, λ a h. tt)
Distinct-split (x ∷ xs) ys d =
    let (dx, dy, apart) = Distinct-split xs ys d.1 in
    let (nx, ny) = NotIn-split x xs ys d.0 in
    ((nx, dx), dy, λ a h. (ne_of_NotIn ys ny h, apart a h))

pub In-split : (a : ℕ) (xs ys : List ℕ) → In a (xs ++ ys) → In a xs ⊎ In a ys
In-split a [] ys h = inr h
In-split a (x ∷ xs) ys (inl e) = inl (inl e)
In-split a (x ∷ xs) ys (inr h) = elim (In-split a xs ys h) [ inl l ↦ inl (inr l) | inr r ↦ inr r ]

pub NotIn-of_ne : (x : ℕ) (zs : List ℕ) → ((a : ℕ) → In a zs → a ≢ x) → NotIn x zs
NotIn-of_ne x [] f = tt
NotIn-of_ne x (z ∷ zs) f = ((λ e. f z (inl refl) (sym e)), NotIn-of_ne x zs (λ a h. f a (inr h)))

pub Distinct-append :
    (xs ys : List ℕ)
    → Distinct xs
    → Distinct ys
    → ((a : ℕ) → In a ys → NotIn a xs)
    → Distinct (xs ++ ys)
Distinct-append [] ys d e apart = e
Distinct-append (x ∷ xs) ys d e apart = (
  NotIn-append x xs ys d.0 (NotIn-of_ne x ys λ a h. (apart a h).0),
  Distinct-append xs ys d.1 e λ a h. (apart a h).1,
)

-- How many times `t` stands in the list.
abbrev pub times : ℕ → List ℕ → ℕ
times t [] = 0
times t (first ∷ more) = (if first == t then 1 else 0) + times t more

pub times-append :
    (t : ℕ) (front back : List ℕ) → times t (front ++ back) ≡ times t front + times t back
times-append t [] back = ground arith
times-append t (first ∷ more) back = let behind = times-append t more back in omega (arith, behind)

-- What stands in a list at all stands in it.
pub In-times : (a : ℕ) (xs : List ℕ) → 0 < times a xs → In a xs
In-times a [] h = elim h [ ]
In-times a (x ∷ xs) h = elim (Bool-cases (x == a)) [
  | inl e ↦ inl (ground arith)
  | inr e ↦ inr (In-times a xs (ground arith))
]
