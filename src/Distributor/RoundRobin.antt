-- ===== src/Distributor/RoundRobin.antt =====
-- `AddTask` of src/b_routine_env.cc hands the tasks out in turn.
use native.Mathlib.Nat.{mod-eq_of_lt, mod_self, mod-lt, mod-add-mod, add-zero}
use native.Mathlib.Decide.{dec_lt}
use b_routine.Base.{
  Bool-cases, zero, append-nil, ◌-◌, ◌≢◌, ℕ, suc, ◌+◌, ◌%◌, ◌<◌, ◌≤◌, ◌≡◌, refl, sym, ap, ◌∙◌, ◌⊎◌,
  inl, inr, false, List, [], ◌∷◌, ◌++◌, arith, ◌==◌, leb, if◌then◌else◌, length,
}
use b_routine.Distributor.{Task, Distributor, Result, ok, fault, put, add_task}

-- Calls of `AddTask` one after the other, up to the first fault.
pub add_tasks : List Task → Distributor → Result Distributor
add_tasks [] d = ok d
add_tasks (t ∷ ts) d = elim (add_task t d) [
  | ok (signalled, d') ↦ add_tasks ts d'
  | fault e ↦ fault e
]

abbrev pub AllResumable : List Task → Type 0
AllResumable [] = Unit {0}
AllResumable (t ∷ ts) = (t.is_progress ≡ false) × AllResumable ts

-- The distributor after a task has been put on the list of the cursor.
abbrev added : Task → Distributor → Distributor
added t d = record d {
  active_tasks = put d.active_tasks d.cursor (d.active_tasks d.cursor ++ t ∷ []);
  cursor = (d.cursor + 1) % d.size;
}

add_tasks-step :
    (t : Task) (ts : List Task) (d : Distributor)
    → t.is_progress ≡ false
    → d.cursor < d.size
    → d.size ≤ d.capacity
    → add_tasks (t ∷ ts) d ≡ add_tasks ts (added t d)
unfolding add_tasks add_task
add_tasks-step t ts d p c r = ground arith

-- The task at a place, if there is one.
abbrev pub place : ℕ → List Task → List Task
place n [] = []
place zero (t ∷ ts) = t ∷ []
place (suc n) (t ∷ ts) = place n ts

-- How many lists the list `j` lies behind the list `c`, around the end.
abbrev pub behind : (size c j : ℕ) → ℕ
behind size c j = if leb c j then j - c else j + size - c

-- The calls end, and each list has got the task whose turn it was, at its end.
abbrev pub Handed : Distributor → List Task → Result Distributor → Type 0
Handed d ts r =
    (e : Distributor) × (r ≡ ok e)
    × (e.cursor ≡ (d.cursor + length ts) % d.size)
    × ((j : ℕ)
        → j < d.size
        → e.active_tasks j ≡ d.active_tasks j ++ place (behind d.size d.cursor j) ts)

place-past : (n : ℕ) (ts : List Task) → length ts ≤ n → place n ts ≡ []
place-past n [] h = refl
place-past zero (t ∷ ts) h = absurd (omega (arith, h))
place-past (suc n) (t ∷ ts) h = place-past n ts (omega arith)

-- The cursor after one task, without the modulus.
step_cursor :
    (c size : ℕ)
    → c < size
    → ((c + 1 < size) × ((c + 1) % size ≡ c + 1)) ⊎ ((c + 1 ≡ size) × ((c + 1) % size ≡ 0))
step_cursor c size h = elim (dec_lt (c + 1) size) [
  | yes p ↦ inl (p, mod-eq_of_lt p)
  | no p ↦ let e : c + 1 ≡ size = omega arith in inr (e, ap (λ k. k % size) e ∙ mod_self size)
]

abbrev Turn : (size c c' : ℕ) → Type 0
Turn size c c' = ((c + 1 < size) × (c' ≡ c + 1)) ⊎ ((c + 1 ≡ size) × (c' ≡ 0))

-- The list whose turn it was is the last in turn now; the others have come closer by one.
behind-here : (size c c' : ℕ) → c < size → Turn size c c' → suc (behind size c' c) ≡ size
behind-here size c c' a (inl (h, e)) = ground arith
behind-here size c c' a (inr (h, e)) = ground arith

behind-other :
    (size c c' j : ℕ)
    → c < size
    → j < size
    → j ≢ c
    → Turn size c c'
    → behind size c j ≡ suc (behind size c' j)
behind-other size c c' j a b ne (inl (h, e)) = ground arith
behind-other size c c' j a b ne (inr (h, e)) = ground arith

-- What a list has got from the first task and from the others.
place-added :
    (t : Task) (ts : List Task) (d : Distributor) (c' j : ℕ)
    → d.cursor < d.size
    → length ts < d.size
    → j < d.size
    → Turn d.size d.cursor c'
    → (added t d).active_tasks j ++ place (behind d.size c' j) ts
      ≡ d.active_tasks j ++ place (behind d.size d.cursor j) (t ∷ ts)
place-added t ts d c' j c n h turn = elim (Bool-cases (j == d.cursor)) [
  | inl hit ↦
      let e : j ≡ d.cursor = ground arith in
      let last : suc (behind d.size c' j) ≡ d.size =
        ap (λ k. suc (behind d.size c' k)) e ∙ behind-here d.size d.cursor c' c turn in
      let none_left : place (behind d.size c' j) ts ≡ [] =
        place-past (behind d.size c' j) ts (omega (arith, last)) in
      let first : behind d.size d.cursor j ≡ 0 = ground arith in
      rw (hit, none_left, first) rw (append-nil (d.active_tasks d.cursor ++ t ∷ []), e) refl
  | inr miss ↦
      let ne : j ≢ d.cursor = ground arith in
      rw (miss, behind-other d.size d.cursor c' j c h ne turn) refl
]

-- Up to a whole round of resumable tasks go one to each list in turn, each to the end of its list, from
-- the cursor on and around the end: the list `j` gets the task whose place in the sequence is the number
-- of lists that `j` lies behind the cursor, if there is one, and nothing else. The cursor ends behind
-- the last task. The cursor is that of an allocated list.
pub add_tasks-Handed :
    (ts : List Task) (d : Distributor)
    → AllResumable ts
    → length ts ≤ d.size
    → d.cursor < d.size
    → d.size ≤ d.capacity
    → Handed d ts (add_tasks ts d)
unfolding add_tasks
add_tasks-Handed [] d a n c r = (
  d,
  refl,
  sym (ap (λ k. k % d.size) (add-zero d.cursor) ∙ mod-eq_of_lt c),
  λ j h. sym (append-nil (d.active_tasks j)),
)
add_tasks-Handed (t ∷ ts) d a n c r =
    let turn = step_cursor d.cursor d.size c in
    let (e, f, g, l) =
      add_tasks-Handed ts (added t d) a.1 (omega arith) (mod-lt (d.cursor + 1) (omega arith)) r in
    (
      e,
      add_tasks-step t ts d a.0 c r ∙ f,
      g ∙ mod-add-mod (d.cursor + 1) d.size (length ts) ∙ ap (λ k. k % d.size) (omega arith),
      λ j h. l j h ∙ place-added t ts d ((d.cursor + 1) % d.size) j c (omega arith) h turn,
    )
