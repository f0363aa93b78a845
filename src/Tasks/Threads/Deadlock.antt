-- ===== src/Tasks/Threads/Deadlock.antt =====
-- No two threads wait for one another in `pushBack` and `popHead` (src/b_task.cc).
use b_routine.Base.{◌≡◌, ◌⊎◌, inl, inr, refl, true, false, arith}
use b_routine.Tasks.{Ptr, Store}
use b_routine.Tasks.Locked.Alone.{Unlocked}
use b_routine.Tasks.Threads.{
  PushPc, begin, want_head, pushed, PopPc, start, popped, Outcome, goes, waits, returned, faults,
  push_step, pop_step, System, system, Step, push_moves, pop_moves, Reach, here, later, again,
}
use b_routine.Tasks.Threads.Overlap.{MovesOn}
use b_routine.Tasks.Threads.Waits.{push-waits, pop-waits, push-returned, pop-returned}
use b_routine.Tasks.Threads.Locks.{
  Held, pusher_head, pusher_tail, popper_head, popper_tail, push-Held, pop-Held,
}

abbrev HeldBy : Ptr → System → Type 0
HeldBy l c =
    Held l c.store (pusher_head c.push) (pusher_tail c.push) (popper_head c.pop) (popper_tail c.pop)

Step-Held : (l i : Ptr) (c d : System) → Step l i c d → HeldBy l c → HeldBy l d
Step-Held l i c d (push_moves {p} {p'} {q} {s = u} {t = w} e) v =
    push-Held l i p p' (popper_head q) (popper_tail q) u w e v
Step-Held l i c d (pop_moves {p} {q} {q'} {s = u} {t = w} e) v =
    pop-Held l q q' (pusher_head p) (pusher_tail p) u w e v

Reach-Held :
    (l i : Ptr) (s : Store) (c : System)
    → Unlocked s l
    → Reach l i (system begin start s) c
    → HeldBy l c
unfolding pusher_head pusher_tail popper_head popper_tail
Reach-Held l i s c (f, g) here = ground arith
Reach-Held l i s c free (later {b} r st) = Step-Held l i b c st (Reach-Held l i s b free r)
Reach-Held l i s c free (again {p} {r = x} {s = u} r) =
    Reach-Held l i s (system p (popped x) u) free r

-- A thread's next statement goes on, or it uses a null or freed pointer.
abbrev pub Acts : {A : Type 0} → Outcome A → Type 0
Acts o = MovesOn o ⊎ (o ≡ faults)

outcome_cases : {A : Type 0} (o : Outcome A) → Acts o ⊎ ((o ≡ waits) ⊎ (o ≡ returned))
outcome_cases (goes p s) = inl (inl (p, s, refl))
outcome_cases waits = inr (inl refl)
outcome_cases returned = inr (inr refl)
outcome_cases faults = inl (inr refl)

waits_both :
    (l i : Ptr) (p : PushPc) (q : PopPc) (t : Store)
    → HeldBy l (system p q t)
    → push_step l i p t ≡ waits
    → pop_step l q t ≡ waits
    → ⊥
unfolding pusher_head pusher_tail
waits_both l i p q t v a b =
    let (none_tail, at) = push-waits l i p (popper_head q) (popper_tail q) t a v in
    let (no_tail, at') = pop-waits l q (pusher_head p) (pusher_tail p) t b v in
    apart none_tail no_tail at at'
  where
    apart :
        pusher_tail p ≡ false
        → popper_tail q ≡ false
        → ((p ≡ want_head) × (popper_head q ≡ true)) ⊎ (popper_tail q ≡ true)
        → ((popper_head q ≡ false) × (pusher_head p ≡ true)) ⊎ (pusher_tail p ≡ true)
        → ⊥
    apart n m' (inl (e, k)) (inl (f, m)) = ground arith
    apart n m' (inl (e, k)) (inr f) = ground arith
    apart n m' (inr e) (inl (f, m)) = ground arith
    apart n m' (inr e) (inr f) = ground arith

waits_popped :
    (l i : Ptr) (p : PushPc) (q : PopPc) (t : Store)
    → HeldBy l (system p q t)
    → push_step l i p t ≡ waits
    → (r : Ptr) × (q ≡ popped r)
    → ⊥
unfolding popper_head popper_tail
waits_popped l i p q t v a (r, e) =
    let (n, at) = push-waits l i p (popper_head q) (popper_tail q) t a v in
    elim at [ inl (f, k) ↦ ground arith | inr k ↦ ground arith ]

pushed_waits :
    (l i : Ptr) (p : PushPc) (q : PopPc) (t : Store)
    → HeldBy l (system p q t)
    → p ≡ pushed
    → pop_step l q t ≡ waits
    → ⊥
unfolding pusher_head pusher_tail
pushed_waits l i p q t v e b =
    let (n, at) = pop-waits l q (pusher_head p) (pusher_tail p) t b v in
    elim at [ inl (f, k) ↦ ground arith | inr k ↦ ground arith ]

-- A list's mutexes are free; one thread calls `pushBack` and another `popHead`, again and again. At every
-- point of every run, in any store, a thread's next statement goes on, or uses a null or freed pointer, or
-- both calls have returned: the two never wait for one another.
pub Reach-Acts :
    (s : Store) (l i : Ptr)
    → Unlocked s l
    → (p : PushPc) (q : PopPc) (t : Store) → Reach l i (system begin start s) (system p q t)
    → Acts (push_step l i p t)
      ⊎ (Acts (pop_step l q t) ⊎ ((p ≡ pushed) × ((r : Ptr) × (q ≡ popped r))))
Reach-Acts s l i free p q t run =
    let v = Reach-Held l i s (system p q t) free run in
    sort (outcome_cases (push_step l i p t)) (outcome_cases (pop_step l q t)) v
  where
    sort :
        Acts (push_step l i p t) ⊎ ((push_step l i p t ≡ waits) ⊎ (push_step l i p t ≡ returned))
        → Acts (pop_step l q t) ⊎ ((pop_step l q t ≡ waits) ⊎ (pop_step l q t ≡ returned))
        → HeldBy l (system p q t)
        → Acts (push_step l i p t)
          ⊎ (Acts (pop_step l q t) ⊎ ((p ≡ pushed) × ((r : Ptr) × (q ≡ popped r))))
    sort (inl a) o v = inl a
    sort (inr a) (inl b) v = inr (inl b)
    sort (inr (inl a)) (inr (inl b)) v = absurd (waits_both l i p q t v a b)
    sort (inr (inl a)) (inr (inr b)) v = absurd (waits_popped l i p q t v a (pop-returned l q t b))
    sort (inr (inr a)) (inr (inl b)) v =
        absurd (pushed_waits l i p q t v (push-returned l i p t a) b)
    sort (inr (inr a)) (inr (inr b)) v = inr (inr (push-returned l i p t a, pop-returned l q t b))
