-- ===== src/Distributor/Steal.antt =====
-- Stealing in src/b_routine_env.cc: what `Try2stealTask` takes, and which entries
-- `stealTaskRoutine` visits.
use mathlib.Core.List.{Perm, perm_middle}
use mathlib.Core.List.Perm
use b_routine.Base.{
  ℕ, zero, suc, ◌+◌, ◌<◌, ◌≤◌, ◌≡◌, refl, subst, append-nil, inl, inr, true, false, List, [], ◌∷◌,
  ◌++◌, some, arith, ◌==◌, Bool-cases, ==_refl,
}
use b_routine.Distributor.{Task, put, TryLocks, to_list, try_to_steal}

-- A list whose only task is the main routine's.
abbrev pub IsLoneMain : List Task → Type 0
IsLoneMain [] = ⊥
IsLoneMain (a ∷ []) = a.is_main ≡ true
IsLoneMain (a ∷ b ∷ rest) = ⊥

to_back : (a : Task) (l : List Task) → Perm (l ++ a ∷ []) (a ∷ l)
to_back a l = subst (λ k. Perm (l ++ a ∷ []) (a ∷ k)) (append-nil l) (perm_middle l [])

-- Unless the main routine's task is alone in the list, `Try2stealTask` neither loses nor doubles a
-- task, and it never answers the main routine's.
pub try_to_steal-perm :
    (locks : TryLocks) (l : List Task)
    → ¬ IsLoneMain l
    → Perm (to_list (try_to_steal locks l).0 ++ (try_to_steal locks l).1) l
      × ((a : Task) → (try_to_steal locks l).0 ≡ some a → a.is_main ≡ false)
unfolding try_to_steal
try_to_steal-perm locks [] n = (Perm.refl [], λ a e. cc)
try_to_steal-perm locks (a ∷ []) n = (ground (arith, Perm.refl (a ∷ [])), λ b e. ground (arith, n))
try_to_steal-perm locks (a ∷ b ∷ rest) n =
    (ground (arith, Perm.refl (a ∷ b ∷ rest), to_back a (b ∷ rest)), λ c e. ground arith)

-- Where the main routine's task is alone in the list and both mutexes are free, it is answered, as
-- if stolen, and stays in the list as well.
pub try_to_steal-lone_main :
    (locks : TryLocks) (a : Task)
    → locks.head ≡ true
    → locks.tail ≡ true
    → a.is_main ≡ true
    → try_to_steal locks (a ∷ []) ≡ (some a, a ∷ [])
unfolding try_to_steal
try_to_steal-lone_main locks a h t m = ground arith

-- The sum of a weight over the tasks of a list, and over the first `n` ready lists.
abbrev pub weigh : (Task → ℕ) → List Task → ℕ
weigh w [] = 0
weigh w (a ∷ l) = w a + weigh w l

abbrev pub weigh_all : (Task → ℕ) → (ℕ → List Task) → ℕ → ℕ
weigh_all w f zero = 0
weigh_all w f (suc n) = weigh_all w f n + weigh w (f n)

pub weigh-append : (w : Task → ℕ) (l k : List Task) → weigh w (l ++ k) ≡ weigh w l + weigh w k
weigh-append w [] k = omega arith
weigh-append w (a ∷ l) k = omega (arith, weigh-append w l k)

pub weigh-try_to_steal :
    (w : Task → ℕ) (locks : TryLocks) (l : List Task)
    → ¬ IsLoneMain l
    → weigh w (to_list (try_to_steal locks l).0) + weigh w (try_to_steal locks l).1 ≡ weigh w l
unfolding try_to_steal
weigh-try_to_steal w locks [] n = omega arith
weigh-try_to_steal w locks (a ∷ []) n = ground (arith, n)
weigh-try_to_steal w locks (a ∷ b ∷ rest) n = ground (arith, weigh-append w rest (a ∷ []))

weigh_all-put_above :
    (w : Task → ℕ) (f : ℕ → List Task) (i n : ℕ) (l : List Task)
    → n ≤ i
    → weigh_all w (put f i l) n ≡ weigh_all w f n
weigh_all-put_above w f i zero l h = refl
weigh_all-put_above w f i (suc n) l h =
    let miss : (n == i) ≡ false = ground arith in
    rw miss (omega (arith, weigh_all-put_above w f i n l (omega arith)))

pub weigh_all-put :
    (w : Task → ℕ) (f : ℕ → List Task) (i n : ℕ) (l : List Task)
    → i < n
    → weigh_all w (put f i l) n + weigh w (f i) ≡ weigh_all w f n + weigh w l
weigh_all-put w f i zero l h = elim h [ ]
weigh_all-put w f i (suc n) l h = elim (Bool-cases (n == i)) [
  | inl hit ↦
      let e : n ≡ i = ground arith in
      rw (e, ==_refl i) (omega (arith, weigh_all-put_above w f i i l (omega arith)))
  | inr miss ↦ let lt : i < n = ground arith in rw miss (omega (arith, weigh_all-put w f i n l lt))
]
