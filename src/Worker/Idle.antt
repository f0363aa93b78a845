-- ===== src/Worker/Idle.antt =====
-- The first check of `ProcessBegin` (src/b_scheduler.cc) in an environment in which nothing waits.
use b_routine.Base.{
  ℕ, zero, suc, ◌+◌, ◌-◌, ◌%◌, ◌≤◌, ◌<◌, ◌≡◌, refl, ap, ◌∙◌, inl, inr, List, [], ◌++◌, some,
  Bool-cases, arith, ◌==◌, append-nil,
}
use b_routine.Wheel.Merge.{due}
use b_routine.Poll.Batch.{perpare_all, callback_all}
use b_routine.Deal.{Env, deal}
use b_routine.Deal.Between.{deal_timer-TimedOut}
use b_routine.Worker.Wakes.{check_env-deals}
use b_routine.Worker.{u64, Machine, add_all, deal_tasks, Input, check_env}

due-empty : (f : ℕ → List ℕ) (i n : ℕ) → ((j : ℕ) → f j ≡ []) → due f i n ≡ []
due-empty f i zero h = refl
due-empty f i (suc n) h = rw (h i) (due-empty f (i + 1) n h)

-- The first check of a new environment, in which nothing waits.
pub record Checks (fuel : ℕ) (i : Input) (now_timer : ℕ) : Type 0 where
  pub no_events : i.events ≡ some []
  pub clock : now_timer ≤ i.now_timer
  pub small : i.now_timer < u64
  pub early : (i.now_timer - now_timer) + 1 < 30000
  pub fuel_enough : i.now_timer - now_timer < fuel

-- Nothing waits in the environment, whose timer is new.
pub record IsIdle (e : Env) (now : ℕ) : Type 0 where
  pub buckets : (j : ℕ) → e.shared.timer.bucket j ≡ []
  pub position : e.shared.timer.bucket_pos_now ≡ 0
  pub size : e.shared.timer.bucket_size ≡ 30000
  pub time : e.shared.timer.last_check_time ≡ now
  pub none_ready : e.shared.ready ≡ []

-- The deal of an environment in which nothing waits leaves the ready list alone.
deal_tasks-idle :
    (fuel : ℕ) (i : Input) (m : Machine) (now : ℕ)
    → Checks fuel i now
    → IsIdle m.env now
    → (v : Machine) × (deal_tasks fuel i.events i.now_timer i.now_end m ≡ some v)
      × (v.world ≡ m.world)
unfolding perpare_all deal_tasks callback_all deal
deal_tasks-idle fuel i m now c t =
    let e = m.env in
    let d = i.now_timer - now in
    let wheel = e.shared.timer in
    let gone = due-empty wheel.bucket (wheel.bucket_pos_now + 1) d t.buckets in
    let (v, run, ready, _, _, _) =
      deal_timer-TimedOut e i.now_timer i.now_end d fuel
        (record {
          pos_lt = omega (arith, t.position, t.size);
          size_small = omega (arith, t.size);
          clock = omega (arith, t.time, c.clock);
          now_small = c.small;
        })
        (omega (arith, t.time, c.clock)) (omega (arith, t.position, t.size, c.early))
        c.fuel_enough in
    let none_added =
      ready ∙ ap (λ l. e.shared.ready ++ l) gone ∙ append-nil e.shared.ready ∙ t.none_ready in
    (
      record m { env = record v { shared = record (v.shared) { ready = [] } } },
      rw (c.no_events, perpare_all, callback_all, run, none_added, add_all, deal, deal_tasks) refl,
      refl,
    )

pub check_env-idle :
    (fuel : ℕ) (i : Input) (m : Machine) (now : ℕ)
    → Checks fuel i now
    → IsIdle m.env now
    → (v : Machine) × (check_env fuel i m ≡ some v) × (v.world ≡ m.world)
unfolding check_env
check_env-idle fuel i m now c t =
    elim (Bool-cases ((i.now + u64 - m.env.last_check_time) % u64 == 0)) [
      | inl e ↦ let run : check_env fuel i m ≡ some m = rw (e, check_env) refl in (m, run, refl)
      | inr e ↦ elim (Bool-cases i.lock_free) [
        | inl f ↦
            let (v, run, same) = deal_tasks-idle fuel i m now c t in
            (v, check_env-deals fuel i m v e f run, same)
        | inr f ↦ let run : check_env fuel i m ≡ some m = rw (e, f) refl in (m, run, refl)
      ]
    ]
