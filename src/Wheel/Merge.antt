-- ===== src/Wheel/Merge.antt =====
-- `NewMergeUpdate2Now` of src/b_epoll.cc where the wheel does not reach the end of its array.
use b_routine.Base.{
  ℕ, zero, suc, ◌+◌, ◌-◌, ◌*◌, ◌%◌, ◌≤◌, ◌<◌, ◌≡◌, refl, sym, ap, ◌∙◌, some, false, List, [], ◌++◌,
  append_assoc, append-nil, arith, leb, ltb, ◌&&◌, ◌==◌, if◌then◌else◌, le→leb, lt→leb,
}
use native.Mathlib.Nat.{mod-eq_of_lt}
use b_routine.Wheel.{u64, Timer, clear, merge_loop, target_pos, settle, new_merge_update_to_now}

-- What the buckets `i`, `i + 1`, … hold, `n` of them, in order.
abbrev pub due : (ℕ → List ℕ) → ℕ → ℕ → List ℕ
due b i zero = []
due b i (suc n) = b i ++ due b (i + 1) n

-- The wheel with those buckets emptied.
abbrev pub cleared : Timer → ℕ → ℕ → Timer
cleared t i zero = t
cleared t i (suc n) = cleared (clear t i) (i + 1) n

due-clear : (t : Timer) (i j n : ℕ) → i < j → due (clear t i).bucket j n ≡ due t.bucket j n
unfolding clear
due-clear t i j zero h = refl
due-clear t i j (suc n) h =
    let miss : (j == i) ≡ false = ground arith in
    rw miss (ap (λ l. t.bucket j ++ l) (due-clear t i (j + 1) n (omega arith)))

-- Past the target the loop stops, whatever the fuel.
pub merge_loop-stop :
    (fuel i target : ℕ) (t : Timer) (r : List ℕ)
    → 0 < fuel
    → target < i
    → merge_loop fuel i target t r ≡ some (t, r)
unfolding merge_loop
merge_loop-stop zero i target t r f h = elim f [ ]
merge_loop-stop (suc fuel) i target t r f h = rw (lt→leb i target h)

merge_loop-due :
    (n fuel i target : ℕ) (t : Timer) (r : List ℕ)
    → i + n ≡ target + 1
    → target + 1 < t.bucket_size
    → n < fuel
    → merge_loop fuel i target t r ≡ some (cleared t i n, r ++ due t.bucket i n)
unfolding merge_loop
merge_loop-due zero fuel i target t r e h f =
    merge_loop-stop fuel i target t r (omega arith) (omega arith)
    ∙ ap (λ l. some (t, l)) (sym (append-nil r))
merge_loop-due (suc n) zero i target t r e h f = elim f [ ]
merge_loop-due (suc n) (suc fuel) i target t r e h f =
    let next : (i + 1) % t.bucket_size ≡ i + 1 = mod-eq_of_lt (omega arith) in
    rw (le→leb i target (omega arith)) (
      rw next (
        merge_loop-due n fuel (i + 1) target (clear t i) (r ++ t.bucket i) (omega arith)
          (unfold clear in h) (omega arith)
        ∙ ap (λ l. some (cleared (clear t i) (i + 1) n, l))
            (append_assoc r (t.bucket i) (due (clear t i).bucket (i + 1) n)
              ∙ ap (λ l. r ++ (t.bucket i ++ l)) (due-clear t i (i + 1) n (omega arith)))))

bucket-cleared :
    (t : Timer) (i n j : ℕ)
    → (cleared t i n).bucket j ≡ (if leb i j && ltb j (i + n) then [] else t.bucket j)
unfolding clear
bucket-cleared t i zero j = ground arith
bucket-cleared t i (suc n) j = bucket-cleared (clear t i) (i + 1) n j ∙ ground arith

-- The wheel stands on a bucket of its array, and the clock has not gone back.
pub record IsRunning (t : Timer) (now : ℕ) : Type 0 where
  pub pos_lt : t.bucket_pos_now < t.bucket_size
  pub size_small : 2 * t.bucket_size < u64
  pub clock : t.last_check_time ≤ now
  pub now_small : now < u64

pub target_pos-add :
    (t : Timer) (now e : ℕ)
    → IsRunning t now
    → now ≡ t.last_check_time + e
    → t.bucket_pos_now + e < u64
    → target_pos t now ≡ (t.bucket_pos_now + e) % t.bucket_size
unfolding target_pos
target_pos-add t now e v h small =
    let whole : (now + u64 - t.last_check_time + t.bucket_pos_now) % u64 ≡ t.bucket_pos_now + e =
      omega arith in
    rw whole

-- When the wheel advances by `e` milliseconds and stays short of the last bucket of its array, the
-- merge ends after `e` rounds: it returns what the next `e` buckets hold, in the order of their
-- times, empties exactly those, and moves the position and the time of the last check.
pub new_merge_update_to_now-due :
    (t : Timer) (now e fuel : ℕ)
    → IsRunning t now
    → now ≡ t.last_check_time + e
    → t.bucket_pos_now + e + 1 < t.bucket_size
    → e < fuel
    → new_merge_update_to_now fuel t now
        ≡ some (
          settle (t.bucket_pos_now + e) now (cleared t (t.bucket_pos_now + 1) e),
          due t.bucket (t.bucket_pos_now + 1) e,
        )
      × ((j : ℕ)
          → (cleared t (t.bucket_pos_now + 1) e).bucket j ≡ (
              if leb (t.bucket_pos_now + 1) j && ltb j (t.bucket_pos_now + 1 + e)
              then []
              else t.bucket j))
unfolding new_merge_update_to_now
new_merge_update_to_now-due t now e fuel v clock room enough =
    let small = v.size_small in
    let target : target_pos t now ≡ t.bucket_pos_now + e =
      target_pos-add t now e v clock (omega arith) ∙ mod-eq_of_lt (omega arith) in
    let start : (t.bucket_pos_now + 1) % u64 ≡ t.bucket_pos_now + 1 = mod-eq_of_lt (omega arith) in
    (
      rw (
        target,
        start,
        merge_loop-due e fuel (t.bucket_pos_now + 1) (t.bucket_pos_now + e) t [] (omega arith) room
            enough,
      ),
      bucket-cleared t (t.bucket_pos_now + 1) e,
    )
