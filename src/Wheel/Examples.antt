-- ===== src/Wheel/Examples.antt =====
-- Tests of the timer wheel (src/b_epoll.cc).
use b_routine.Base.{ℕ, ◌<◌, ◌≤◌, ◌^◌, ◌≡◌, refl, [], ◌∷◌, none, some, arith, ◌==◌, if◌then◌else◌}
use b_routine.Wheel.{Timer, new, settle, new_merge_update_to_now}
use b_routine.Wheel.Merge.{IsRunning, cleared, new_merge_update_to_now-due}
use b_routine.Wheel.Stalls.{new_merge_update_to_now-last, new_merge_update_to_now-wrap}

-- Ten buckets, at the fourth; the task 7 stands in the next one.
abbrev small : Timer
small = record {
  bucket = λ i. if i == 5 then 7 ∷ [] else [];
  bucket_size = 10;
  last_check_time = 100;
  bucket_pos_now = 4;
}

small-IsRunning : (now : ℕ) → 100 ≤ now → now < 2 ^ 64 → IsRunning small now
small-IsRunning now h k = record {
  pos_lt = omega arith;
  size_small = omega arith;
  clock = h;
  now_small = k;
}

new_merge_update_to_now-due_example :
    new_merge_update_to_now 3 small 102 ≡ some (settle 6 102 (cleared small 5 2), 7 ∷ [])
new_merge_update_to_now-due_example =
    (new_merge_update_to_now-due small 102 2 3 (small-IsRunning 102 (omega arith) (omega arith))
      refl (omega arith) (omega arith)).0

new_merge_update_to_now-last_example : new_merge_update_to_now 100 small 105 ≡ none
new_merge_update_to_now-last_example =
    new_merge_update_to_now-last small 105 5 (small-IsRunning 105 (omega arith) (omega arith)) refl
      (omega arith) refl 100

new_merge_update_to_now-wrap_example :
    new_merge_update_to_now 1 small 107 ≡ some (settle 1 107 small, [])
new_merge_update_to_now-wrap_example =
    new_merge_update_to_now-wrap small 107 7 1 (small-IsRunning 107 (omega arith) (omega arith))
      refl (omega arith) (omega arith) (omega arith)

-- A new wheel has a bucket for each millisecond of thirty seconds.
new-runs : (new 5).bucket_size ≡ 30000
unfolding new
new-runs = refl
