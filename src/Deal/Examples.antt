-- ===== src/Deal/Examples.antt =====
-- Tests of a pass of `Deal` (src/b_routine_env.cc) over two waiting calls of `poll`: the task 1, in the
-- bucket 5, has two events, and the task 2, in the bucket 6, has none.
use b_routine.Base.{
  times, ℕ, ◌+◌, ◌<◌, ◌≡◌, refl, subst, false, List, [], ◌∷◌, some, arith, ◌==◌, if◌then◌else◌,
  Bool-cases, inl, inr,
}
use b_routine.Hooks.{pos}
use b_routine.Poll.{poll_end, Message, Event}
use b_routine.Poll.Batch.{IsWaiting, events_of}
use b_routine.Mutex.{time_wait_end}
use b_routine.Deal.{Env, poll, cond, deal}
use b_routine.Deal.Polls.{polling, deal-poll_begin}
use b_routine.Deal.Conds.{IsTimed, deal-time_wait_end}
use b_routine.Deal.Once.{Served, deal-Served}

abbrev waiting : ℕ → Message
waiting m = record {
  pollfds = [];
  active_fds_nums = 0;
  active_fds_nums2 = 0;
  is_join_active_list = false;
  is_remove_from_timeout_list = false;
  owner = some (m + 4);
  is_task_timeout = false;
}

abbrev env : Env
env = record {
  shared = record {
    message = waiting;
    timer = record {
      bucket = λ j. if j == 5 then 1 ∷ [] else if j == 6 then 2 ∷ [] else [];
      bucket_size = 10;
      last_check_time = 100;
      bucket_pos_now = 4;
    };
    ctl = [];
    ready = 8 ∷ [];
  };
  on_timeout = λ t. poll t;
  is_timeout = λ a. 0;
  last_check_time = 100;
}

abbrev events : List Event
events =
    record { message = 1; fd = 4; events = 1 } ∷ record { message = 1; fd = 5; events = 4 } ∷ []

waiting_one : IsWaiting env.shared 1 5
waiting_one = record {
  owned = refl;
  no_events = (refl, refl);
  not_joined = refl;
  not_removed = refl;
  once = λ j. ground arith;
}

waiting_for : (m : ℕ) → 0 < events_of m events → (b : ℕ) × IsWaiting env.shared m b
waiting_for m h = elim (Bool-cases (1 == m)) [
  | inl hit ↦
      let here : 1 ≡ m = ground arith in
      subst (λ x. (b : ℕ) × IsWaiting env.shared x b) here (5, waiting_one)
  | inr miss ↦ absurd (ground arith)
]

few_events : (m : ℕ) → events_of m events + 1 < 18446744073709551616
few_events m = ground arith

deal-Served_example :
    (v : Env) × (deal 3 (some events) 102 102 env ≡ some v)
    × Served env v events 2 1 5
    × (v.last_check_time ≡ 102)
deal-Served_example =
    deal-Served env events 102 102 2 3 1 5 waiting_for few_events
      (record {
        pos_lt = omega arith;
        size_small = omega arith;
        clock = omega arith;
        now_small = omega arith;
      })
      refl (omega arith) (omega arith) waiting_one

-- The task 3 of a `timeWait` is in the bucket 6 too, and marks the address 77.
abbrev timed_env : Env
timed_env = record env {
  shared = record (env.shared) {
    timer = record (env.shared.timer) {
      bucket = λ j. if j == 5 then 1 ∷ [] else if j == 6 then 2 ∷ 3 ∷ [] else [];
    };
  };
  on_timeout = λ t. if t == 3 then cond 77 else poll t;
}

three-IsTimed : IsTimed timed_env [] 3 77 6
three-IsTimed = record { rings = refl; once = λ j. ground arith; no_events = refl }

deal-time_wait_end_example :
    (v : Env) × (deal 3 (some []) 102 102 timed_env ≡ some v)
    × (times 3 v.shared.ready ≡ 1)
    × (v.is_timeout 77 ≡ 1)
    × (time_wait_end (v.is_timeout 77) ≡ record { leaves_timer = false; locks = false; result = 0 })
deal-time_wait_end_example =
    deal-time_wait_end timed_env [] 102 102 2 3 3 77 6 (λ n h. elim h [ ]) (λ n. omega arith)
      (record {
        pos_lt = omega arith;
        size_small = omega arith;
        clock = omega arith;
        now_small = omega arith;
      })
      refl (omega arith) (omega arith) three-IsTimed refl

-- The task 9 is in no bucket yet.
deal-poll_begin_example :
    (v : Env) × (deal 3 (some []) 102 102 (polling env 9 [] 2) ≡ some v)
    × (times 9 v.shared.ready ≡ 1)
    × ((poll_end 9 v.shared).0 ≡ pos 0)
deal-poll_begin_example =
    deal-poll_begin env [] [] 2 102 102 2 3 9 (omega arith) (omega arith) (omega arith)
      (λ j. ground arith) (λ n h. elim h [ ]) (λ n. omega arith)
      (record {
        pos_lt = omega arith;
        size_small = omega arith;
        clock = omega arith;
        now_small = omega arith;
      })
      refl (omega arith) (omega arith)
