-- ===== src/Tasks/Threads/Overlap.antt =====
-- Every interleaving of a `pushBack` and a `popHead` (src/b_task.cc) on a list of two items or more.
use b_routine.Base.{Bool, ◌<◌, ℕ, ◌+◌, ◌≤◌, arith, ◌≡◌, sym, subst, ap, ◌∙◌, ◌⊎◌, inl, inr, false}
use b_routine.Tasks.{Ptr, Store}
use b_routine.Tasks.Threads.{
  waits, PushPc, begin, pushed, PopPc, start, popped, Outcome, goes, push_step, pop_step, System,
  system, Step, push_moves, pop_moves, Once, at_start, moved,
}
use b_routine.Tasks.Threads.Setting.{IsReady, mixed, mixed-start}
use b_routine.Tasks.Threads.Next.{PushAt-on, PopAt-on}
use b_routine.Tasks.Threads.Position.{
  PushAt, PopAt, PushAt-pop, pushed-last, popped-last, PushAt-bound, PopAt-bound, at_begin,
  at_first,
}

goes_1 : {A : Type 0} {p q : A} {s t : Store} → goes p s ≡ goes q t → (p ≡ q) × (s ≡ t)
goes_1 e = ground arith

abbrev pub MovesOn : {A : Type 0} → Outcome A → Type 0
MovesOn {A} o = (p : A) × (t : Store) × (o ≡ goes p t)

-- The number of steps of a run.
unfoldable pub steps : {l i : Ptr} {a c : System} → Once l i a c → ℕ
steps at_start = 0
steps (moved r st) = steps r + 1

pushed-stays :
    (l i : Ptr) (s : Store) {p p' : PushPc} {t : Store}
    → p ≡ pushed
    → push_step l i p s ≡ goes p' t
    → ⊥
unfolding push_step
pushed-stays l i s {p} {p'} {t} done e =
    let e' = subst (λ z. push_step l i z s ≡ goes p' t) done e in ground arith

popped-stays :
    (l x : Ptr) (s : Store) {q q' : PopPc} {t : Store}
    → q ≡ popped x
    → pop_step l q s ≡ goes q' t
    → ⊥
unfolding pop_step
popped-stays l x s {q} {q'} {t} done e =
    let e' = subst (λ z. pop_step l z s ≡ goes q' t) done e in ground arith

goes-waits : {A : Type 0} {p : A} {s : Store} → waits ≡ goes p s → ⊥
goes-waits e = ground arith

module _ (s : Store) (l i x y b : Ptr) (n : ℕ) (v : IsReady s l i x y b n) where
  -- Where a run of one call each can stand after `m` steps.
  record IsBetween (m : ℕ) (d : System) : Type 0 where
    h : Bool
    k : ℕ
    c : ℕ
    j : ℕ
    total : m ≤ k + c + j
    push : PushAt n d.push h k c j
    pop : PopAt x d.pop j
    store : d.store ≡ mixed s l i x y b h k j

  end_of : {m : ℕ} {d : System} (w : IsBetween m d) → w.j ≤ 11
  end_of {m} {d} w = PopAt-bound x d.pop w.j w.pop

  Step-IsBetween : (m : ℕ) (d e : System) → Step l i d e → IsBetween m d → IsBetween (m + 1) e
  Step-IsBetween m d d' (push_moves {p} {p'} {q} {s = u} e) w =
      elim (PushAt-on s l i x y b n v p w.h w.k w.c w.j w.push (end_of w)) [
        | inl done ↦ absurd (pushed-stays l i u done e)
        | inr (inl on) ↦
            let (e0, e1) = goes_1 (sym e ∙ ap (push_step l i p) w.store ∙ on.step) in
            record {
              h = on.h';
              k = on.k';
              c = on.c';
              j = w.j;
              total = omega (arith, w.total, on.longer);
              push = subst (λ z. PushAt n z on.h' on.k' on.c' w.j) (sym e0) on.to;
              pop = w.pop;
              store = e1;
            }
        | inr (inr (stop, busy)) ↦
            absurd (goes-waits (sym stop ∙ sym (ap (push_step l i p) w.store) ∙ e))
      ]
  Step-IsBetween m d d' (pop_moves {p} {q} {q'} {s = u} e) w =
      elim (PopAt-on s l i x y b n v q w.j w.pop) [
        | inl done ↦ absurd (popped-stays l x u done e)
        | inr (q1, at', f) ↦
            let more = PopAt-bound x q1 (w.j + 1) at' in
            let (free, stays) = PushAt-pop p w.h w.k w.c w.j w.push (omega (arith, more)) in
            let before = w.store ∙ ap (λ z. mixed s l i x y b z w.k w.j) free in
            let (e0, e1) = goes_1 (sym e ∙ ap (pop_step l q) before ∙ f w.k) in
            record {
              h = false;
              k = w.k;
              c = w.c;
              j = w.j + 1;
              total = omega (arith, w.total);
              push = stays;
              pop = subst (λ z. PopAt x z (w.j + 1)) (sym e0) at';
              store = e1;
            }
      ]

  Once-IsBetween : (c : System) (r : Once l i (system begin start s) c) → IsBetween (steps r) c
  unfolding steps
  Once-IsBetween c at_start = record {
    h = false;
    k = 0;
    c = 0;
    j = 0;
    total = omega arith;
    push = at_begin;
    pop = at_first;
    store = mixed-start s l i x y b n v;
  }
  Once-IsBetween c (moved {b = c'} r st) = Step-IsBetween (steps r) c' c st (Once-IsBetween c' r)

  pub Once-both :
      (r : Ptr) (t : Store)
      → Once l i (system begin start s) (system pushed (popped r) t)
      → (r ≡ x) × (t ≡ mixed s l i x y b false 12 11)
  Once-both r t run =
      let w = Once-IsBetween (system pushed (popped r) t) run in
      let (ej, er) = popped-last r w.j w.pop in
      let (eh, ek) = pushed-last w.h w.k w.c w.j w.push in
      (
        er,
        w.store
            ∙ ap (λ z. mixed s l i x y b z w.k w.j) eh
            ∙ ap (λ z. mixed s l i x y b false z w.j) ek
            ∙ ap (mixed s l i x y b false 12) ej,
      )

  pub Once-goes :
      (p : PushPc) (q : PopPc) (t : Store) (r : Once l i (system begin start s) (system p q t))
      → (steps r ≤ 27)
        × ((q ≡ popped x) ⊎ MovesOn (pop_step l q t))
        × ((p ≡ pushed)
            ⊎ (MovesOn (push_step l i p t)
                ⊎ ((push_step l i p t ≡ waits) × MovesOn (pop_step l q t))))
  Once-goes p q t r =
      let w = Once-IsBetween (system p q t) r in
      let pops : (q ≡ popped x) ⊎ MovesOn (pop_step l q t) =
        elim (PopAt-on s l i x y b n v q w.j w.pop) [
          | inl done ↦ inl done
          | inr (q', at', f) ↦
              let more = PopAt-bound x q' (w.j + 1) at' in
              let (free, stays) = PushAt-pop p w.h w.k w.c w.j w.push (omega (arith, more)) in
              let before = w.store ∙ ap (λ z. mixed s l i x y b z w.k w.j) free in
              inr (q', mixed s l i x y b false w.k (w.j + 1), ap (pop_step l q) before ∙ f w.k)
        ] in
      (
        omega (arith, w.total, PushAt-bound p w.h w.k w.c w.j w.push, PopAt-bound x q w.j w.pop),
        pops,
        elim (PushAt-on s l i x y b n v p w.h w.k w.c w.j w.push (end_of w)) [
          | inl done ↦ inl done
          | inr (inl on) ↦ inr (
              inl
                (on.p', mixed s l i x y b on.h' on.k' w.j, ap (push_step l i p) w.store ∙ on.step))
          | inr (inr (stop, busy)) ↦
              inr (inr (ap (push_step l i p) w.store ∙ stop, still q w.j w.pop busy pops))
        ],
      )
    where
      still :
          (q : PopPc) (j : ℕ)
          → PopAt x q j
          → j < 11
          → (q ≡ popped x) ⊎ MovesOn (pop_step l q t)
          → MovesOn (pop_step l q t)
      still q j at busy (inl done) =
          let (e, r) = popped-last x j (subst (λ z. PopAt x z j) done at) in
          absurd (omega (arith, e, busy))
      still q j at busy (inr on) = on
