-- ===== src/Deal/Conds.antt =====
-- A pass of `Deal` (src/b_routine_env.cc) and the waits of `timeWait` (src/b_mutex_cond.cc), whose tasks
-- stand on the same timer as those of the hooked `poll`.
use b_routine.Base.{
  refl, leb, ltb, ◌&&◌, ℕ, ◌+◌, ◌<◌, ◌≡◌, ap, ◌∙◌, true, false, List, arith, ◌==◌, if◌then◌else◌,
  times, times-append, In-times, some,
}
use b_routine.Mutex.{time_wait_end}
use b_routine.Wheel.Merge.{due, IsRunning}
use b_routine.Poll.{u64, Event}
use b_routine.Poll.Batch.{events_of, IsWaiting, callback_all}
use b_routine.Deal.{cond, Env, deal}
use b_routine.Deal.Between.{times-due, passes, deal_timer-TimedOut, events-Between, deal-run}

-- A task of `timeWait` that stands in one bucket, once, and that no event is for.
pub record IsTimed (e : Env) (es : List Event) (t a b : ℕ) : Type 0 where
  pub rings : e.on_timeout t ≡ cond a
  pub once : (j : ℕ) → times t (e.shared.timer.bucket j) ≡ (if j == b then 1 else 0)
  pub no_events : events_of t es ≡ 0

-- A `timeWait` whose time is up in a pass is made ready by it, once, and finds its `IsTimeout` set,
-- so it returns 0 and does not lock the mutex again. The pass ends. Its events are all for waiting
-- calls of `poll`, none for this task, and the wheel stays short of the last bucket of its array.
-- The clock has not gone back, no call has 2^64 - 1 events or more, and there is fuel for each
-- millisecond.
pub deal-time_wait_end :
    (e : Env) (es : List Event) (now now' d fuel t a b : ℕ)
    → ((n : ℕ) → 0 < events_of n es → (c : ℕ) × IsWaiting e.shared n c)
    → ((n : ℕ) → events_of n es + 1 < u64)
    → IsRunning e.shared.timer now
    → now ≡ e.shared.timer.last_check_time + d
    → e.shared.timer.bucket_pos_now + d + 1 < e.shared.timer.bucket_size
    → d < fuel
    → IsTimed e es t a b
    → passes e.shared.timer d b ≡ true
    → (v : Env) × (deal fuel (some es) now now' e ≡ some v)
      × (times t v.shared.ready ≡ times t e.shared.ready + 1)
      × (v.is_timeout a ≡ 1)
      × (time_wait_end (v.is_timeout a)
          ≡ record { leaves_timer = false; locks = false; result = 0 })
unfolding time_wait_end
deal-time_wait_end e es now now' d fuel t a b waiting few r clock room enough timed up =
    let w = e.shared in
    let (u, q, bt) = events-Between es w waiting few in
    let position = bt.position in
    let size = bt.size in
    let since = bt.clock in
    let x = callback_all es u in
    let (v, eq, ready, _, _, rings) =
      deal_timer-TimedOut (record e { shared = x }) now now' d fuel
        (record {
          pos_lt = omega (arith, r.pos_lt);
          size_small = omega (arith, r.size_small);
          clock = omega (arith, r.clock);
          now_small = r.now_small;
        })
        (omega arith) (omega arith) enough in
    let ts = due x.timer.bucket (x.timer.bucket_pos_now + 1) d in
    let here : times t ts ≡ 1 =
      times-due x.timer.bucket t 1 b (x.timer.bucket_pos_now + 1) d
        (λ j. bt.unmoved t j timed.no_events ∙ timed.once j)
      ∙ ap (λ k. if leb (k + 1) b && ltb b (k + 1 + d) then 1 else 0) position
      ∙ ap (λ p. if p then 1 else 0) up in
    let unwoken : times t x.ready ≡ times t w.ready =
      bt.ready t
      ∙ ap (λ k. times t w.ready + (if k == 0 then 0 else 1)) timed.no_events
      ∙ omega arith in
    let rung = rings t a (In-times t ts (omega arith)) timed.rings in
    (
      v,
      deal-run e es u v now now' fuel q eq,
      ap (times t) ready ∙ times-append t x.ready ts ∙ omega (arith, unwoken, here),
      rung,
      rw rung refl,
    )
