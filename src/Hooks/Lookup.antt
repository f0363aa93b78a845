-- ===== src/Hooks/Lookup.antt =====
-- The table of the system's calls in src/b_hook.cc, and `disableHook` and `enableHook`. A call is known
-- by its place in the list of `enableHook`; `dlsym` is an argument, and `none` is the null pointer.
use b_routine.Base.{
  ℕ, ◌≡◌, refl, sym, ap, subst, ◌∙◌, inl, inr, Bool, true, false, ◌&&◌, Option, none, some, List,
  [], ◌∷◌, In, arith, Bool-cases, ==_refl, ◌==◌, if◌then◌else◌,
}

-- `read`, `write`, `close`, `socket`, `accept`, `connect`, `sendto`, `recvfrom`, `send`, `recv`,
-- `poll`, `setsockopt`, `fcntl`, `__poll`.
abbrev pub hook_names : List ℕ
hook_names = 0 ∷ 1 ∷ 2 ∷ 3 ∷ 4 ∷ 5 ∷ 6 ∷ 7 ∷ 8 ∷ 9 ∷ 10 ∷ 11 ∷ 12 ∷ 13 ∷ []

abbrev pub HookTable : Type 0
HookTable = ℕ → Option ℕ

abbrev pub is_found : Option ℕ → Bool
is_found none = false
is_found (some f) = true

abbrev pub or_else : Option ℕ → Option ℕ → Option ℕ
or_else none b = b
or_else (some f) b = some f

-- `Do_Hook`.
unfoldable pub do_hook : (dlsym : ℕ → Option ℕ) → ℕ → HookTable → HookTable
do_hook dlsym x t y = if is_found (t x) then t y else if y == x then dlsym x else t y

-- The test of `enableHook`, and the calls of `Do_Hook` in its other branch.
unfoldable pub all_found : List ℕ → HookTable → Bool
all_found [] t = true
all_found (x ∷ xs) t = is_found (t x) && all_found xs t

unfoldable pub do_hooks : (dlsym : ℕ → Option ℕ) → List ℕ → HookTable → HookTable
unfolding do_hook
do_hooks dlsym [] t = t
do_hooks dlsym (x ∷ xs) t = do_hooks dlsym xs (do_hook dlsym x t)

-- `enableHook`: the table and `IsEnableHook`.
unfoldable pub enable_hook : (dlsym : ℕ → Option ℕ) → HookTable → HookTable × Bool
enable_hook dlsym t = (if all_found hook_names t then t else do_hooks dlsym hook_names t, true)

-- `disableHook`: `IsEnableHook`.
abbrev pub disable_hook : Bool
disable_hook = false

do_hook_self :
    (dlsym : ℕ → Option ℕ) (x y : ℕ) (t : HookTable)
    → (y == x) ≡ true
    → do_hook dlsym x t y ≡ or_else (t y) (dlsym y)
unfolding do_hook
do_hook_self dlsym x y t e =
    let here : x ≡ y = ground arith in
    subst (λ z. do_hook dlsym z t y ≡ or_else (t y) (dlsym y)) (sym here) (at (t y) refl)
  where
    at : (o : Option ℕ) → t y ≡ o → do_hook dlsym y t y ≡ or_else (t y) (dlsym y)
    at none q = rw (q, ==_refl y) refl
    at (some f) q = rw q refl

do_hook_other :
    (dlsym : ℕ → Option ℕ) (x y : ℕ) (t : HookTable) → (y == x) ≡ false → do_hook dlsym x t y ≡ t y
unfolding do_hook
do_hook_other dlsym x y t e = ground arith

or_else_again : (a b : Option ℕ) → or_else (or_else a b) b ≡ or_else a b
or_else_again none none = refl
or_else_again none (some f) = refl
or_else_again (some f) b = refl

do_hooks_settled :
    (dlsym : ℕ → Option ℕ) (xs : List ℕ) (t : HookTable) (y : ℕ) (a : Option ℕ)
    → t y ≡ or_else a (dlsym y)
    → do_hooks dlsym xs t y ≡ or_else a (dlsym y)
unfolding do_hooks
do_hooks_settled dlsym [] t y a h = h
do_hooks_settled dlsym (x ∷ xs) t y a h =
    do_hooks_settled dlsym xs (do_hook dlsym x t) y a (elim (Bool-cases (y == x)) [
      | inl e ↦
          do_hook_self dlsym x y t e ∙ ap (λ o. or_else o (dlsym y)) h ∙ or_else_again a (dlsym y)
      | inr e ↦ do_hook_other dlsym x y t e ∙ h
    ])

do_hooks-or_else :
    (dlsym : ℕ → Option ℕ) (xs : List ℕ) (t : HookTable) (y : ℕ)
    → In y xs
    → do_hooks dlsym xs t y ≡ or_else (t y) (dlsym y)
unfolding do_hooks
do_hooks-or_else dlsym [] t y i = absurd i
do_hooks-or_else dlsym (x ∷ xs) t y (inl e) =
    do_hooks_settled dlsym xs (do_hook dlsym x t) y (t y) (do_hook_self dlsym x y t (ground arith))
do_hooks-or_else dlsym (x ∷ xs) t y (inr i) = elim (Bool-cases (y == x)) [
  | inl e ↦ do_hooks_settled dlsym xs (do_hook dlsym x t) y (t y) (do_hook_self dlsym x y t e)
  | inr e ↦
      do_hooks-or_else dlsym xs (do_hook dlsym x t) y i
      ∙ ap (λ o. or_else o (dlsym y)) (do_hook_other dlsym x y t e)
]

all_found-or_else :
    (dlsym : ℕ → Option ℕ) (xs : List ℕ) (t : HookTable) (y : ℕ)
    → all_found xs t ≡ true
    → In y xs
    → t y ≡ or_else (t y) (dlsym y)
unfolding all_found
all_found-or_else dlsym [] t y h i = absurd i
all_found-or_else dlsym (x ∷ xs) t y h (inl e) = ground arith
all_found-or_else dlsym (x ∷ xs) t y h (inr i) = all_found-or_else dlsym xs t y (ground arith) i

-- Behind `enableHook` each of the calls is known as before, or as `dlsym` finds it if it was not known,
-- whichever branch is taken, and the hooks are on.
pub enable_hook-or_else :
    (dlsym : ℕ → Option ℕ) (t : HookTable) (y : ℕ)
    → In y hook_names
    → ((enable_hook dlsym t).0 y ≡ or_else (t y) (dlsym y)) × ((enable_hook dlsym t).1 ≡ true)
unfolding enable_hook
enable_hook-or_else dlsym t y i = elim (Bool-cases (all_found hook_names t)) [
  | inl e ↦ (rw e (all_found-or_else dlsym hook_names t y e i), refl)
  | inr e ↦ (rw e (do_hooks-or_else dlsym hook_names t y i), refl)
]
