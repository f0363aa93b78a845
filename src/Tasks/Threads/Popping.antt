-- ===== src/Tasks/Threads/Popping.antt =====
-- What a statement of `popHead` (src/b_task.cc) does while another thread is in `pushBack`.
use mathlib.Core.Path.{fun_ext}
use b_routine.Base.{ℕ, ◌+◌, ◌-◌, ◌%◌, ◌≡◌, ap, ◌∙◌, true, false, arith}
use b_routine.Tasks.{
  Ptr, null, u32, Store, update, put_prev, put_next, put_owner, put_head, decrement,
}
use b_routine.Tasks.Threads.{
  start, lock_head, look, probe, count_down, take, cut_prev, move_head, drop_next, drop_owner,
  unlock_head, popped, goes, hold_head, take_step, pop_step,
}
use b_routine.Tasks.Threads.Setting.{IsReady, mixed}

module _ (s : Store) (l i x y b : Ptr) (n : ℕ) (v : IsReady s l i x y b n) (k : ℕ) where
  abbrev at : ℕ → Store
  at j = mixed s l i x y b false k j

  pub step_start : pop_step l start (at 0) ≡ goes lock_head (at 1)
  unfolding pop_step
  step_start = let count = v.count in let many = v.many in ground arith

  pub step_lock_head : pop_step l lock_head (at 1) ≡ goes look (at 2)
  unfolding pop_step
  step_lock_head =
      let headfree = v.head_free in
      let put : update (at 1).head_mutex l true ≡ (at 2).head_mutex = fun_ext λ a. ground arith in
      let step : pop_step l lock_head (at 1) ≡ goes look (hold_head (at 1) l true) = ground arith in
      step ∙ ap (λ f. goes look (record (at 1) { head_mutex = f })) put

  pub step_look : pop_step l look (at 2) ≡ goes (probe false) (at 3)
  unfolding pop_step
  step_look = let count = v.count in let many = v.many in ground arith

  pub step_probe : pop_step l (probe false) (at 3) ≡ goes (count_down false) (at 4)
  unfolding pop_step
  step_probe =
      let count = v.count in
      let many = v.many in
      let liveb = v.live_b in
      let livei = v.live_i in let livex = v.live_x in let nonull = v.no_null in ground arith

  pub step_count_down : pop_step l (count_down false) (at 4) ≡ goes (take false) (at 5)
  unfolding pop_step
  step_count_down =
      let count = v.count in
      let many = v.many in
      let room = v.room in
      let put : update (at 4).item_count l (((at 4).item_count l + (u32 - 1)) % u32)
          ≡ (at 5).item_count =
        fun_ext λ a. ground arith in
      let step : pop_step l (count_down false) (at 4) ≡ goes (take false) (decrement (at 4) l) =
        ground arith in
      step ∙ ap (λ f. goes (take false) (record (at 4) { item_count = f })) put

  pub step_take : pop_step l (take false) (at 5) ≡ goes (cut_prev false x) (at 6)
  unfolding pop_step take_step
  step_take =
      let livel = v.live_l in
      let livex = v.live_x in
      let nonull = v.no_null in
      let ownerx = v.owner_x in let xb = v.x_b in let ix = v.i_x in ground arith

  pub step_cut_prev : pop_step l (cut_prev false x) (at 6) ≡ goes (move_head false x) (at 7)
  unfolding pop_step
  step_cut_prev =
      let livey = v.live_y in
      let iy = v.i_y in
      let put : update (at 6).prev y null ≡ (at 7).prev = fun_ext λ a. ground arith in
      let step : pop_step l (cut_prev false x) (at 6)
          ≡ goes (move_head false x) (put_prev (at 6) y null) =
        ground arith in
      step ∙ ap (λ f. goes (move_head false x) (record (at 6) { prev = f })) put

  pub step_move_head : pop_step l (move_head false x) (at 7) ≡ goes (drop_next false x) (at 8)
  unfolding pop_step
  step_move_head =
      let put : update (at 7).head l y ≡ (at 8).head = fun_ext λ a. ground arith in
      let step : pop_step l (move_head false x) (at 7)
          ≡ goes (drop_next false x) (put_head (at 7) l y) =
        ground arith in
      step ∙ ap (λ f. goes (drop_next false x) (record (at 7) { head = f })) put

  pub step_drop_next : pop_step l (drop_next false x) (at 8) ≡ goes (drop_owner false x) (at 9)
  unfolding pop_step
  step_drop_next =
      let xb = v.x_b in
      let put : update (at 8).next x null ≡ (at 9).next = fun_ext λ a. ground arith in
      let step : pop_step l (drop_next false x) (at 8)
          ≡ goes (drop_owner false x) (put_next (at 8) x null) =
        ground arith in
      step ∙ ap (λ f. goes (drop_owner false x) (record (at 8) { next = f })) put

  pub step_drop_owner : pop_step l (drop_owner false x) (at 9) ≡ goes (unlock_head false x) (at 10)
  unfolding pop_step
  step_drop_owner =
      let put : update (at 9).owner x null ≡ (at 10).owner = fun_ext λ a. ground arith in
      let step : pop_step l (drop_owner false x) (at 9)
          ≡ goes (unlock_head false x) (put_owner (at 9) x null) =
        ground arith in
      step ∙ ap (λ f. goes (unlock_head false x) (record (at 9) { owner = f })) put

  pub step_unlock_head : pop_step l (unlock_head false x) (at 10) ≡ goes (popped x) (at 11)
  unfolding pop_step
  step_unlock_head =
      let put : update (at 10).head_mutex l false ≡ (at 11).head_mutex =
        fun_ext λ a. ground arith in
      let step : pop_step l (unlock_head false x) (at 10)
          ≡ goes (popped x) (hold_head (at 10) l false) =
        ground arith in
      step ∙ ap (λ f. goes (popped x) (record (at 10) { head_mutex = f })) put
