-- ===== src/Tasks/Threads/Pushing.antt =====
-- What a statement of `pushBack` (src/b_task.cc) does while another thread is in `popHead`.
use mathlib.Core.Path.{fun_ext}
use b_routine.Base.{
  ℕ, ◌+◌, ◌%◌, ◌≡◌, ◌<◌, ◌⊎◌, inl, inr, refl, ap, ◌∙◌, Bool, true, false, Bool-cases, arith, ltb,
}
use b_routine.Tasks.{
  Ptr, null, u32, Store, update, put_prev, put_next, put_owner, put_tail, increment,
}
use b_routine.Tasks.Threads.{
  begin, want_head, want_tail, check, count_up, test, link_next, link_prev, move_tail, clear_next,
  own, release_head, release_tail, pushed, goes, waits, hold_head, hold_tail, push_step,
}
use b_routine.Tasks.Threads.Setting.{IsReady, mixed}

-- The counter is below 2: it was 2, and the popper has counted down.
abbrev pub Few : (n j : ℕ) → Type 0
Few n j = (n ≡ 2) × (4 < j)

module _ (s : Store) (l i x y b : Ptr) (n : ℕ) (v : IsReady s l i x y b n) (j : ℕ) where
  abbrev unheld : ℕ → Store
  unheld k = mixed s l i x y b false k j

  abbrev held : ℕ → Store
  held k = mixed s l i x y b true k j

  -- The pusher looks at the counter.
  pub count_cases : (ltb ((unheld 0).item_count l) 2 ≡ false) ⊎ Few n j
  count_cases =
      let count = v.count in
      let many = v.many in
      elim (Bool-cases (ltb ((unheld 0).item_count l) 2)) [
        | inl few ↦ inr (ground arith)
        | inr enough ↦ inl enough
      ]

  pub Few-enough : Few n j → ltb ((unheld 0).item_count l) 2 ≡ false → ⊥
  Few-enough (two, late) e = let count = v.count in ground arith

  pub step_begin :
      ltb ((unheld 0).item_count l) 2 ≡ false
      → push_step l i begin (unheld 0) ≡ goes (want_tail false) (unheld 1)
  unfolding push_step
  step_begin enough = ground arith

  pub step_begin-Few : Few n j → push_step l i begin (unheld 0) ≡ goes want_head (unheld 0)
  unfolding push_step
  step_begin-Few (two, late) = let count = v.count in ground arith

  pub step_want_head : j ≡ 11 → push_step l i want_head (unheld 0) ≡ goes (want_tail true) (held 1)
  unfolding push_step
  step_want_head done =
      let put : update (unheld 0).head_mutex l true ≡ (held 1).head_mutex =
        fun_ext λ a. ground arith in
      let tail : (unheld 0).tail_mutex ≡ (held 1).tail_mutex = refl in
      let step : push_step l i want_head (unheld 0)
          ≡ goes (want_tail true) (hold_head (unheld 0) l true) =
        ground arith in
      step ∙ ap (λ f. goes (want_tail true) (record (unheld 0) { head_mutex = f })) put

  pub step_want_head_waits : 4 < j → j < 11 → push_step l i want_head (unheld 0) ≡ waits
  unfolding push_step
  step_want_head_waits late busy = ground arith

  pub step_check :
      ltb ((unheld 0).item_count l) 2 ≡ false
      → push_step l i (check false) (unheld 2) ≡ goes (count_up false) (unheld 3)
  unfolding push_step
  step_check enough = ground arith

  pub step_check_held : push_step l i (check true) (held 2) ≡ goes (count_up true) (held 3)
  unfolding push_step
  step_check_held = ground arith

  pub step_retry : Few n j → push_step l i (check false) (unheld 2) ≡ goes begin (unheld 0)
  unfolding push_step
  step_retry (two, late) =
      let count = v.count in
      let free = v.tail_free in
      let put : update (unheld 2).tail_mutex l false ≡ (unheld 0).tail_mutex =
        fun_ext λ a. ground arith in
      let step : push_step l i (check false) (unheld 2)
          ≡ goes begin (hold_tail (unheld 2) l false) =
        ground arith in
      step ∙ ap (λ f. goes begin (record (unheld 2) { tail_mutex = f })) put

  pub step_release_head :
      push_step l i (release_head false) (unheld 10) ≡ goes release_tail (unheld 11)
  unfolding push_step
  step_release_head = refl

  pub step_release_held :
      j ≡ 11 → push_step l i (release_head true) (held 10) ≡ goes release_tail (unheld 11)
  unfolding push_step
  step_release_held done =
      let put : update (held 10).head_mutex l false ≡ (unheld 11).head_mutex =
        fun_ext λ a. ground arith in
      ap (λ f. goes release_tail (record (held 10) { head_mutex = f })) put

  pub step_release_tail : push_step l i release_tail (unheld 11) ≡ goes pushed (unheld 12)
  unfolding push_step
  step_release_tail =
      let put : update (unheld 11).tail_mutex l false ≡ (unheld 12).tail_mutex =
        fun_ext λ a. ground arith in
      ap (λ f. goes pushed (record (unheld 11) { tail_mutex = f })) put

module _ (s : Store) (l i x y b : Ptr) (n : ℕ) (v : IsReady s l i x y b n) (h : Bool) (j : ℕ) where
  abbrev at : ℕ → Store
  at k = mixed s l i x y b h k j

  pub step_want_tail : push_step l i (want_tail h) (at 1) ≡ goes (check h) (at 2)
  unfolding push_step
  step_want_tail =
      let tailfree = v.tail_free in
      let put : update (at 1).tail_mutex l true ≡ (at 2).tail_mutex = fun_ext λ a. ground arith in
      let step : push_step l i (want_tail h) (at 1) ≡ goes (check h) (hold_tail (at 1) l true) =
        ground arith in
      step ∙ ap (λ f. goes (check h) (record (at 1) { tail_mutex = f })) put

  pub step_count_up : push_step l i (count_up h) (at 3) ≡ goes (test h) (at 4)
  unfolding push_step
  step_count_up =
      let count = v.count in
      let many = v.many in
      let room = v.room in
      let livei = v.live_i in
      let nonull = v.no_null in
      let put : update (at 3).item_count l (((at 3).item_count l + 1) % u32) ≡ (at 4).item_count =
        fun_ext λ a. ground arith in
      let step : push_step l i (count_up h) (at 3) ≡ goes (test h) (increment (at 3) l) =
        ground arith in
      step ∙ ap (λ f. goes (test h) (record (at 3) { item_count = f })) put

  pub step_test : push_step l i (test h) (at 4) ≡ goes (link_next h) (at 5)
  unfolding push_step
  step_test = let liveb = v.live_b in let livei = v.live_i in let nonull = v.no_null in ground arith

  pub step_link_next : push_step l i (link_next h) (at 5) ≡ goes (link_prev h) (at 6)
  unfolding push_step
  step_link_next =
      let liveb = v.live_b in
      let xb = v.x_b in
      let put : update (at 5).next b i ≡ (at 6).next = fun_ext λ a. ground arith in
      let step : push_step l i (link_next h) (at 5) ≡ goes (link_prev h) (put_next (at 5) b i) =
        ground arith in
      step ∙ ap (λ f. goes (link_prev h) (record (at 5) { next = f })) put

  pub step_link_prev : push_step l i (link_prev h) (at 6) ≡ goes (move_tail h) (at 7)
  unfolding push_step
  step_link_prev =
      let livei = v.live_i in
      let iy = v.i_y in
      let put : update (at 6).prev i b ≡ (at 7).prev = fun_ext λ a. ground arith in
      let step : push_step l i (link_prev h) (at 6) ≡ goes (move_tail h) (put_prev (at 6) i b) =
        ground arith in
      step ∙ ap (λ f. goes (move_tail h) (record (at 6) { prev = f })) put

  pub step_move_tail : push_step l i (move_tail h) (at 7) ≡ goes (clear_next h) (at 8)
  unfolding push_step
  step_move_tail =
      let put : update (at 7).tail l i ≡ (at 8).tail = fun_ext λ a. ground arith in
      let step : push_step l i (move_tail h) (at 7) ≡ goes (clear_next h) (put_tail (at 7) l i) =
        ground arith in
      step ∙ ap (λ f. goes (clear_next h) (record (at 7) { tail = f })) put

  pub step_clear_next : push_step l i (clear_next h) (at 8) ≡ goes (own h) (at 9)
  unfolding push_step
  step_clear_next =
      let livei = v.live_i in
      let ix = v.i_x in
      let ib = v.i_b in
      let nexti = v.next_i in
      let put : update (at 8).next i null ≡ (at 9).next = fun_ext λ a. ground arith in
      let step : push_step l i (clear_next h) (at 8) ≡ goes (own h) (put_next (at 8) i null) =
        ground arith in
      step ∙ ap (λ f. goes (own h) (record (at 8) { next = f })) put

  pub step_own : push_step l i (own h) (at 9) ≡ goes (release_head h) (at 10)
  unfolding push_step
  step_own =
      let livei = v.live_i in
      let ix = v.i_x in
      let put : update (at 9).owner i l ≡ (at 10).owner = fun_ext λ a. ground arith in
      let step : push_step l i (own h) (at 9) ≡ goes (release_head h) (put_owner (at 9) i l) =
        ground arith in
      step ∙ ap (λ f. goes (release_head h) (record (at 9) { owner = f })) put
