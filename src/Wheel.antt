-- ===== src/Wheel.antt =====
-- The single-level timer wheel of src/b_epoll.cc and src/b_epoll.h (`bEpTimer`): an array of
-- buckets of `TaskItem` pointers, one for each millisecond of a turn. A bucket is the abstract
-- queue of its `TaskItemsList`; the wheel's numbers are `unsigned long long`.
pub mod Fires
pub mod Merge
pub mod Stalls
mod Examples
use mathlib.Core.Option
use b_routine.Base.{
  ℕ, zero, suc, ◌+◌, ◌-◌, ◌*◌, ◌%◌, ◌^◌, Option, none, some, true, false, List, [], ◌∷◌, ◌++◌, ltb,
  leb, ◌==◌, if◌then◌else◌,
}

abbrev pub u64 : ℕ
u64 = 2 ^ 64

-- `TIMEWAITSECONDS_S` of src/b_common.h.
abbrev pub timewait_seconds : ℕ
timewait_seconds = 30

pub record Timer : Type 0 where
  pub bucket : ℕ → List ℕ
  pub bucket_size : ℕ
  pub last_check_time : ℕ
  pub bucket_pos_now : ℕ

-- `bEpTimer::New`, with the time that `getNow_Ms` returns.
unfoldable pub new : ℕ → Timer
new now = record {
  bucket = λ i. [];
  bucket_size = 1000 * timewait_seconds;
  last_check_time = now;
  bucket_pos_now = 0;
}

-- `bEpTimer::getBucket`: the index of the bucket.
unfoldable pub get_bucket : Timer → ℕ → ℕ
get_bucket t ms_want =
    let want = if ltb t.bucket_size ms_want then t.bucket_size else ms_want in
    ((t.bucket_pos_now + want) % u64) % t.bucket_size

-- `TaskItemsList::pushBack` on a bucket.
unfoldable pub push_task : Timer → ℕ → ℕ → Timer
push_task t i task = record t {
  bucket = λ j. if j == i then t.bucket j ++ task ∷ [] else t.bucket j;
}

-- What `pushAll2` leaves of the bucket that it empties.
pub clear : Timer → ℕ → Timer
clear t i = record t { bucket = λ j. if j == i then [] else t.bucket j }

-- The loop of `NewMergeUpdate2Now`, on fuel; `none` is a loop that is still running.
pub merge_loop : ℕ → ℕ → ℕ → Timer → List ℕ → Option (Timer × List ℕ)
merge_loop zero i target t result = none
merge_loop (suc fuel) i target t result =
    let round =
      merge_loop fuel ((i + 1) % t.bucket_size) target (clear t i) (result ++ t.bucket i) in
    if leb i target then round else some (t, result)

pub target_pos : Timer → ℕ → ℕ
target_pos t now = ((now + u64 - t.last_check_time + t.bucket_pos_now) % u64) % t.bucket_size

-- The two assignments behind the loop.
pub settle : ℕ → ℕ → Timer → Timer
settle target now t = record t { bucket_pos_now = target; last_check_time = now }

-- `bEpTimer::NewMergeUpdate2Now`, with the time that `getNow_Ms` returns.
pub new_merge_update_to_now : ℕ → Timer → ℕ → Option (Timer × List ℕ)
new_merge_update_to_now fuel t now =
    Option.map (λ (t', result). (settle (target_pos t now) now t', result))
      (merge_loop fuel ((t.bucket_pos_now + 1) % u64) (target_pos t now) t [])
