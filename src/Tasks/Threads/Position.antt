-- ===== src/Tasks/Threads/Position.antt =====
-- Where the threads of Tasks/Threads stand when each makes one call on a list of two items or more:
-- the statements of `pushBack` and `popHead` (src/b_task.cc) that they reach, by number.
use b_routine.Base.{ℕ, ◌≤◌, arith, ◌≡◌, refl, false, true, Bool, ◌+◌, ◌<◌}
use b_routine.Tasks.{Ptr}
use b_routine.Tasks.Threads.{
  PushPc, begin, want_head, want_tail, check, count_up, test, link_next, link_prev, move_tail,
  clear_next, own, release_head, release_tail, pushed, PopPc, start, lock_head, look, probe,
  count_down, take, cut_prev, move_head, drop_next, drop_owner, unlock_head, popped,
}
use b_routine.Tasks.Threads.Pushing.{Few}

-- Where the pusher stands: the statement, whether it holds the mutex of the head, the statements made
-- since it last began, a bound of those made before, and the popper's number. It holds the mutex of
-- the head only when the popper has returned.
pub data PushAt (n : ℕ) : PushPc → Bool → (k c j : ℕ) → Type 0 where
  at_begin : {j : ℕ} → PushAt n begin false 0 0 j
  at_again : {j : ℕ} → Few n j → PushAt n begin false 0 3 j
  at_want_head : {j : ℕ} → Few n j → PushAt n want_head false 0 4 j
  at_want_tail : {j : ℕ} → PushAt n (want_tail false) false 1 0 j
  at_check : {j : ℕ} → PushAt n (check false) false 2 0 j
  at_count_up : {j : ℕ} → PushAt n (count_up false) false 3 0 j
  at_test : {j : ℕ} → PushAt n (test false) false 4 0 j
  at_link_next : {j : ℕ} → PushAt n (link_next false) false 5 0 j
  at_link_prev : {j : ℕ} → PushAt n (link_prev false) false 6 0 j
  at_move_tail : {j : ℕ} → PushAt n (move_tail false) false 7 0 j
  at_clear_next : {j : ℕ} → PushAt n (clear_next false) false 8 0 j
  at_own : {j : ℕ} → PushAt n (own false) false 9 0 j
  at_release_head : {j : ℕ} → PushAt n (release_head false) false 10 0 j
  held_want_tail : PushAt n (want_tail true) true 1 4 11
  held_check : PushAt n (check true) true 2 4 11
  held_count_up : PushAt n (count_up true) true 3 4 11
  held_test : PushAt n (test true) true 4 4 11
  held_link_next : PushAt n (link_next true) true 5 4 11
  held_link_prev : PushAt n (link_prev true) true 6 4 11
  held_move_tail : PushAt n (move_tail true) true 7 4 11
  held_clear_next : PushAt n (clear_next true) true 8 4 11
  held_own : PushAt n (own true) true 9 4 11
  held_release_head : PushAt n (release_head true) true 10 4 11
  at_release_tail : {j : ℕ} → PushAt n release_tail false 11 4 j
  at_pushed : {j : ℕ} → PushAt n pushed false 12 4 j

-- Where the popper of `x` stands after `j` statements.
pub data PopAt (x : Ptr) : PopPc → ℕ → Type 0 where
  at_first : PopAt x start 0
  at_lock_head : PopAt x lock_head 1
  at_look : PopAt x look 2
  at_probe : PopAt x (probe false) 3
  at_count_down : PopAt x (count_down false) 4
  at_take : PopAt x (take false) 5
  at_cut_prev : PopAt x (cut_prev false x) 6
  at_move_head : PopAt x (move_head false x) 7
  at_drop_next : PopAt x (drop_next false x) 8
  at_drop_owner : PopAt x (drop_owner false x) 9
  at_unlock_head : PopAt x (unlock_head false x) 10
  at_popped : PopAt x (popped x) 11

pub pushed-last : {n : ℕ} (h : Bool) (k c j : ℕ) → PushAt n pushed h k c j → (h ≡ false) × (k ≡ 12)
pushed-last h k c j at_pushed = (refl, refl)

pub popped-last : {x : Ptr} (r : Ptr) (j : ℕ) → PopAt x (popped r) j → (j ≡ 11) × (r ≡ x)
popped-last r j at_popped = (refl, refl)

-- The popper's next statement does not move the pusher.
pub PushAt-pop :
    {n : ℕ} (p : PushPc) (h : Bool) (k c j : ℕ)
    → PushAt n p h k c j
    → j < 11
    → (h ≡ false) × PushAt n p false k c (j + 1)
PushAt-pop p h k c j at_begin b = (refl, at_begin)
PushAt-pop p h k c j (at_again (two, late)) b = (refl, at_again (two, omega arith))
PushAt-pop p h k c j (at_want_head (two, late)) b = (refl, at_want_head (two, omega arith))
PushAt-pop p h k c j at_want_tail b = (refl, at_want_tail)
PushAt-pop p h k c j at_check b = (refl, at_check)
PushAt-pop p h k c j at_count_up b = (refl, at_count_up)
PushAt-pop p h k c j at_test b = (refl, at_test)
PushAt-pop p h k c j at_link_next b = (refl, at_link_next)
PushAt-pop p h k c j at_link_prev b = (refl, at_link_prev)
PushAt-pop p h k c j at_move_tail b = (refl, at_move_tail)
PushAt-pop p h k c j at_clear_next b = (refl, at_clear_next)
PushAt-pop p h k c j at_own b = (refl, at_own)
PushAt-pop p h k c j at_release_head b = (refl, at_release_head)
PushAt-pop p h k c j held_want_tail b = absurd (omega arith)
PushAt-pop p h k c j held_check b = absurd (omega arith)
PushAt-pop p h k c j held_count_up b = absurd (omega arith)
PushAt-pop p h k c j held_test b = absurd (omega arith)
PushAt-pop p h k c j held_link_next b = absurd (omega arith)
PushAt-pop p h k c j held_link_prev b = absurd (omega arith)
PushAt-pop p h k c j held_move_tail b = absurd (omega arith)
PushAt-pop p h k c j held_clear_next b = absurd (omega arith)
PushAt-pop p h k c j held_own b = absurd (omega arith)
PushAt-pop p h k c j held_release_head b = absurd (omega arith)
PushAt-pop p h k c j at_release_tail b = (refl, at_release_tail)
PushAt-pop p h k c j at_pushed b = (refl, at_pushed)

pub PushAt-bound : {n : ℕ} (p : PushPc) (h : Bool) (k c j : ℕ) → PushAt n p h k c j → k + c ≤ 16
PushAt-bound p h k c j at_begin = omega arith
PushAt-bound p h k c j (at_again few) = omega arith
PushAt-bound p h k c j (at_want_head few) = omega arith
PushAt-bound p h k c j at_want_tail = omega arith
PushAt-bound p h k c j at_check = omega arith
PushAt-bound p h k c j at_count_up = omega arith
PushAt-bound p h k c j at_test = omega arith
PushAt-bound p h k c j at_link_next = omega arith
PushAt-bound p h k c j at_link_prev = omega arith
PushAt-bound p h k c j at_move_tail = omega arith
PushAt-bound p h k c j at_clear_next = omega arith
PushAt-bound p h k c j at_own = omega arith
PushAt-bound p h k c j at_release_head = omega arith
PushAt-bound p h k c j held_want_tail = omega arith
PushAt-bound p h k c j held_check = omega arith
PushAt-bound p h k c j held_count_up = omega arith
PushAt-bound p h k c j held_test = omega arith
PushAt-bound p h k c j held_link_next = omega arith
PushAt-bound p h k c j held_link_prev = omega arith
PushAt-bound p h k c j held_move_tail = omega arith
PushAt-bound p h k c j held_clear_next = omega arith
PushAt-bound p h k c j held_own = omega arith
PushAt-bound p h k c j held_release_head = omega arith
PushAt-bound p h k c j at_release_tail = omega arith
PushAt-bound p h k c j at_pushed = omega arith

pub PopAt-bound : (x : Ptr) (q : PopPc) (j : ℕ) → PopAt x q j → j ≤ 11
PopAt-bound x q j at_first = omega arith
PopAt-bound x q j at_lock_head = omega arith
PopAt-bound x q j at_look = omega arith
PopAt-bound x q j at_probe = omega arith
PopAt-bound x q j at_count_down = omega arith
PopAt-bound x q j at_take = omega arith
PopAt-bound x q j at_cut_prev = omega arith
PopAt-bound x q j at_move_head = omega arith
PopAt-bound x q j at_drop_next = omega arith
PopAt-bound x q j at_drop_owner = omega arith
PopAt-bound x q j at_unlock_head = omega arith
PopAt-bound x q j at_popped = omega arith
