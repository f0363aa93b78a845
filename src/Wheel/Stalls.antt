-- ===== src/Wheel/Stalls.antt =====
-- `NewMergeUpdate2Now` of src/b_epoll.cc at the end of the array, where its loop condition
-- `i <= target_pos` meets the modulus.
use native.Mathlib.Nat.{mod-eq_of_lt, mod-eq-sub-mod}
use b_routine.Base.{
  ℕ, zero, suc, ◌+◌, ◌-◌, ◌%◌, ◌≤◌, ◌<◌, ◌≡◌, refl, ◌∙◌, none, some, List, [], arith, le→leb,
}
use b_routine.Wheel.{u64, Timer, clear, merge_loop, target_pos, settle, new_merge_update_to_now}
use b_routine.Wheel.Merge.{IsRunning, target_pos-add, merge_loop-stop}

-- With the last bucket for a target no index passes the test, so no fuel ends the loop.
merge_loop-last :
    (fuel i target : ℕ) (t : Timer) (r : List ℕ)
    → target + 1 ≡ t.bucket_size
    → i ≤ target
    → merge_loop fuel i target t r ≡ none
unfolding merge_loop
merge_loop-last zero i target t r e h = refl
merge_loop-last (suc fuel) i target t r e h = rw (le→leb i target h) (
    merge_loop-last fuel ((i + 1) % t.bucket_size) target (clear t i) _ (unfold clear in e)
      (grind arith))

-- An advance of at least a millisecond that ends on the last bucket of the array and does not pass the
-- end of the array on its way never returns: whatever the number of rounds, the loop of the merge is
-- still running.
pub new_merge_update_to_now-last :
    (t : Timer) (now e : ℕ)
    → IsRunning t now
    → now ≡ t.last_check_time + e
    → 0 < e
    → t.bucket_pos_now + e + 1 ≡ t.bucket_size
    → (fuel : ℕ) → new_merge_update_to_now fuel t now ≡ none
unfolding new_merge_update_to_now
new_merge_update_to_now-last t now e v clock moved last fuel =
    let room = v.size_small in
    let target : target_pos t now ≡ t.bucket_pos_now + e =
      target_pos-add t now e v clock (omega arith) ∙ mod-eq_of_lt (omega arith) in
    let start : (t.bucket_pos_now + 1) % u64 ≡ t.bucket_pos_now + 1 = mod-eq_of_lt (omega arith) in
    rw (
      target,
      start,
      merge_loop-last fuel (t.bucket_pos_now + 1) (t.bucket_pos_now + e) t [] last (omega arith),
    )

-- An advance by less than a turn that passes the end of the array merges nothing at all: it moves
-- the position and the time, and leaves every bucket that it passes as it was.
pub new_merge_update_to_now-wrap :
    (t : Timer) (now e fuel : ℕ)
    → IsRunning t now
    → now ≡ t.last_check_time + e
    → e < t.bucket_size
    → t.bucket_size ≤ t.bucket_pos_now + e
    → 0 < fuel
    → new_merge_update_to_now fuel t now
      ≡ some (settle (t.bucket_pos_now + e - t.bucket_size) now t, [])
unfolding new_merge_update_to_now
new_merge_update_to_now-wrap t now e fuel v clock turn wraps enough =
    let room = v.size_small in
    let pos = v.pos_lt in
    let target : target_pos t now ≡ t.bucket_pos_now + e - t.bucket_size =
      target_pos-add t now e v clock (omega arith)
      ∙ mod-eq-sub-mod wraps
      ∙ mod-eq_of_lt (omega arith) in
    let start : (t.bucket_pos_now + 1) % u64 ≡ t.bucket_pos_now + 1 = mod-eq_of_lt (omega arith) in
    rw (
      target,
      start,
      merge_loop-stop fuel (t.bucket_pos_now + 1) (t.bucket_pos_now + e - t.bucket_size) t [] enough
          (omega arith),
    )
