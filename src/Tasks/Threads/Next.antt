-- ===== src/Tasks/Threads/Next.antt =====
-- The next statement of either thread of Tasks/Threads, wherever the two stand in their calls
-- (src/b_task.cc).
use b_routine.Base.{
  Bool, true, Bool-cases, ◌<◌, ltb, ℕ, ◌+◌, ◌≤◌, arith, ◌≡◌, refl, sym, subst, ◌⊎◌, inl, inr, false,
}
use b_routine.Tasks.{Ptr, Store}
use b_routine.Tasks.Threads.{
  want_head, waits, PushPc, begin, want_tail, check, pushed, PopPc, lock_head, look, probe,
  count_down, take, cut_prev, move_head, drop_next, drop_owner, unlock_head, popped, goes,
  push_step, pop_step,
}
use b_routine.Tasks.Threads.Setting.{IsReady, mixed}
use b_routine.Tasks.Threads.Pushing
use b_routine.Tasks.Threads.Pushing.{Few}
use b_routine.Tasks.Threads.Popping
use b_routine.Tasks.Threads.Position.{
  PushAt, PopAt, at_begin, at_again, at_want_head, at_want_tail, at_check, at_count_up, at_test,
  at_link_next, at_link_prev, at_move_tail, at_clear_next, at_own, at_release_head, held_want_tail,
  held_check, held_count_up, held_test, held_link_next, held_link_prev, held_move_tail,
  held_clear_next, held_own, held_release_head, at_release_tail, at_pushed, at_first, at_lock_head,
  at_look, at_probe, at_count_down, at_take, at_cut_prev, at_move_head, at_drop_next, at_drop_owner,
  at_unlock_head, at_popped,
}

module _ (s : Store) (l i x y b : Ptr) (n : ℕ) (v : IsReady s l i x y b n) where
  abbrev pub both : (h : Bool) → (k j : ℕ) → Store
  both h k j = mixed s l i x y b h k j

  -- The pusher's next statement.
  pub record PushesOn (p : PushPc) (h : Bool) (k c j : ℕ) : Type 0 where
    pub p' : PushPc
    pub h' : Bool
    pub k' : ℕ
    pub c' : ℕ
    pub to : PushAt n p' h' k' c' j
    pub longer : k + c < k' + c'
    pub step : push_step l i p (both h k j) ≡ goes p' (both h' k' j)

  -- The pusher waits for the mutex of the head, which the popper holds.
  abbrev pub Blocked : PushPc → Bool → (k j : ℕ) → Type 0
  Blocked p h k j = (push_step l i p (both h k j) ≡ waits) × (j < 11)

  -- The popper's, however far the pusher is.
  abbrev pub PopsOn : PopPc → ℕ → Type 0
  PopsOn q j =
      (q' : PopPc) × PopAt x q' (j + 1)
      × ((k : ℕ) → pop_step l q (both false k j) ≡ goes q' (both false k (j + 1)))

  on :
      {p p' : PushPc} {h h' : Bool} {k k' c c' j : ℕ}
      → PushAt n p' h' k' c' j
      → k + c < k' + c'
      → push_step l i p (both h k j) ≡ goes p' (both h' k' j)
      → PushesOn p h k c j ⊎ Blocked p h k j
  on {p' = q} {h' = g} {k' = m} {c' = d} at more step =
      inl (record { p' = q; h' = g; k' = m; c' = d; to = at; longer = more; step = step })

  from_begin :
      (c j : ℕ)
      → c ≤ 3
      → (ltb ((both false 0 j).item_count l) 2 ≡ false → c ≡ 0)
      → PushesOn begin false 0 c j ⊎ Blocked begin false 0 j
  from_begin c j small fresh = elim (Pushing.count_cases s l i x y b n v j) [
    | inl enough ↦
        on at_want_tail (omega (arith, fresh enough)) (Pushing.step_begin s l i x y b n v j enough)
    | inr few ↦ on (at_want_head few) (omega arith) (Pushing.step_begin-Few s l i x y b n v j few)
  ]

  from_check : (j : ℕ) → PushesOn (check false) false 2 0 j ⊎ Blocked (check false) false 2 j
  from_check j = elim (Pushing.count_cases s l i x y b n v j) [
    | inl enough ↦ on at_count_up (omega arith) (Pushing.step_check s l i x y b n v j enough)
    | inr few ↦ on (at_again few) (omega arith) (Pushing.step_retry s l i x y b n v j few)
  ]

  from_want_head :
      (j : ℕ) → Few n j → j ≤ 11 → PushesOn want_head false 0 4 j ⊎ Blocked want_head false 0 j
  from_want_head j (two, late) end = elim (Bool-cases (ltb j 11)) [
    | inl busy ↦
        let b11 : j < 11 = ground arith in
        inr (Pushing.step_want_head_waits s l i x y b n v j late b11, b11)
    | inr over ↦
        let done : j ≡ 11 = ground arith in
        let there = subst (PushAt n (want_tail true) true 1 4) (sym done) held_want_tail in
        on there (omega arith) (Pushing.step_want_head s l i x y b n v j done)
  ]

  pub PushAt-on :
      (p : PushPc) (h : Bool) (k c j : ℕ)
      → PushAt n p h k c j
      → j ≤ 11
      → (p ≡ pushed) ⊎ (PushesOn p h k c j ⊎ Blocked p h k j)
  PushAt-on p h k c j at_begin end = inr (from_begin 0 j (omega arith) (λ e. refl))
  PushAt-on p h k c j (at_again few) end =
      inr (from_begin 3 j (omega arith) (λ e. absurd (Pushing.Few-enough s l i x y b n v j few e)))
  PushAt-on p h k c j (at_want_head few) end = inr (from_want_head j few end)
  PushAt-on p h k c j at_check end = inr (from_check j)
  PushAt-on p h k c j at_want_tail end =
      inr (on at_check (omega arith) (Pushing.step_want_tail s l i x y b n v false j))
  PushAt-on p h k c j held_want_tail end =
      inr (on held_check (omega arith) (Pushing.step_want_tail s l i x y b n v true 11))
  PushAt-on p h k c j held_check end =
      inr (on held_count_up (omega arith) (Pushing.step_check_held s l i x y b n v 11))
  PushAt-on p h k c j at_count_up end =
      inr (on at_test (omega arith) (Pushing.step_count_up s l i x y b n v false j))
  PushAt-on p h k c j held_count_up end =
      inr (on held_test (omega arith) (Pushing.step_count_up s l i x y b n v true 11))
  PushAt-on p h k c j at_test end =
      inr (on at_link_next (omega arith) (Pushing.step_test s l i x y b n v false j))
  PushAt-on p h k c j held_test end =
      inr (on held_link_next (omega arith) (Pushing.step_test s l i x y b n v true 11))
  PushAt-on p h k c j at_link_next end =
      inr (on at_link_prev (omega arith) (Pushing.step_link_next s l i x y b n v false j))
  PushAt-on p h k c j held_link_next end =
      inr (on held_link_prev (omega arith) (Pushing.step_link_next s l i x y b n v true 11))
  PushAt-on p h k c j at_link_prev end =
      inr (on at_move_tail (omega arith) (Pushing.step_link_prev s l i x y b n v false j))
  PushAt-on p h k c j held_link_prev end =
      inr (on held_move_tail (omega arith) (Pushing.step_link_prev s l i x y b n v true 11))
  PushAt-on p h k c j at_move_tail end =
      inr (on at_clear_next (omega arith) (Pushing.step_move_tail s l i x y b n v false j))
  PushAt-on p h k c j held_move_tail end =
      inr (on held_clear_next (omega arith) (Pushing.step_move_tail s l i x y b n v true 11))
  PushAt-on p h k c j at_clear_next end =
      inr (on at_own (omega arith) (Pushing.step_clear_next s l i x y b n v false j))
  PushAt-on p h k c j held_clear_next end =
      inr (on held_own (omega arith) (Pushing.step_clear_next s l i x y b n v true 11))
  PushAt-on p h k c j at_own end =
      inr (on at_release_head (omega arith) (Pushing.step_own s l i x y b n v false j))
  PushAt-on p h k c j held_own end =
      inr (on held_release_head (omega arith) (Pushing.step_own s l i x y b n v true 11))
  PushAt-on p h k c j at_release_head end =
      inr (on at_release_tail (omega arith) (Pushing.step_release_head s l i x y b n v j))
  PushAt-on p h k c j held_release_head end =
      inr (on at_release_tail (omega arith) (Pushing.step_release_held s l i x y b n v 11 refl))
  PushAt-on p h k c j at_release_tail end =
      inr (on at_pushed (omega arith) (Pushing.step_release_tail s l i x y b n v j))
  PushAt-on p h k c j at_pushed end = inl refl

  pub PopAt-on : (q : PopPc) (j : ℕ) → PopAt x q j → (q ≡ popped x) ⊎ PopsOn q j
  PopAt-on q j at_first = inr (lock_head, at_lock_head, Popping.step_start s l i x y b n v)
  PopAt-on q j at_lock_head = inr (look, at_look, Popping.step_lock_head s l i x y b n v)
  PopAt-on q j at_look = inr (probe false, at_probe, Popping.step_look s l i x y b n v)
  PopAt-on q j at_probe = inr (count_down false, at_count_down, Popping.step_probe s l i x y b n v)
  PopAt-on q j at_count_down = inr (take false, at_take, Popping.step_count_down s l i x y b n v)
  PopAt-on q j at_take = inr (cut_prev false x, at_cut_prev, Popping.step_take s l i x y b n v)
  PopAt-on q j at_cut_prev =
      inr (move_head false x, at_move_head, Popping.step_cut_prev s l i x y b n v)
  PopAt-on q j at_move_head =
      inr (drop_next false x, at_drop_next, Popping.step_move_head s l i x y b n v)
  PopAt-on q j at_drop_next =
      inr (drop_owner false x, at_drop_owner, Popping.step_drop_next s l i x y b n v)
  PopAt-on q j at_drop_owner =
      inr (unlock_head false x, at_unlock_head, Popping.step_drop_owner s l i x y b n v)
  PopAt-on q j at_unlock_head = inr (popped x, at_popped, Popping.step_unlock_head s l i x y b n v)
  PopAt-on q j at_popped = inl refl
