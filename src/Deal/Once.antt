-- ===== src/Deal/Once.antt =====
-- Who is made ready by a pass of `Deal` (src/b_routine_env.cc) among the calls of the hooked `poll`.
use b_routine.Base.{
  ℕ, ◌+◌, ◌<◌, ◌≡◌, ap, ◌∙◌, Bool, not, ◌&&◌, List, some, arith, ltb, leb, ◌==◌, if◌then◌else◌,
  times, times-append,
}
use b_routine.Wheel.Merge.{due, IsRunning}
use b_routine.Poll.{u64, Event, poll_end, to_int}
use b_routine.Poll.Batch.{callback_all, events_of, IsWaiting}
use b_routine.Deal.{Env, deal}
use b_routine.Deal.Between.{times-due, passes, deal_timer-TimedOut, events-Between, deal-run}

-- What a waiting call of `poll` has got from the pass.
pub record Served (e v : Env) (es : List Event) (d m b : ℕ) : Type 0 where
  pub ready :
      times m v.shared.ready
      ≡ times m e.shared.ready
        + (if events_of m es == 0 then (if passes e.shared.timer d b then 1 else 0) else 1)
  pub returns : (poll_end m v.shared).0 ≡ to_int (events_of m es)
  pub joined : (v.shared.message m).is_join_active_list ≡ not (events_of m es == 0)

combined :
    (n : ℕ) (p : Bool) (r a b : ℕ)
    → a ≡ r + (if n == 0 then 0 else 1)
    → b ≡ (if p then (if n == 0 then 1 else 0) else 0)
    → a + b ≡ r + (if n == 0 then (if p then 1 else 0) else 1)
combined n p r a b h k = ground arith

abbrev pub AllServed : Env → Env → List Event → ℕ → Type 0
AllServed e v es d = (m b : ℕ) → IsWaiting e.shared m b → Served e v es d m b

pub deal-AllServed :
    (e : Env) (es : List Event) (now now' d fuel : ℕ)
    → ((m : ℕ) → 0 < events_of m es → (b : ℕ) × IsWaiting e.shared m b)
    → ((m : ℕ) → events_of m es + 1 < u64)
    → IsRunning e.shared.timer now
    → now ≡ e.shared.timer.last_check_time + d
    → e.shared.timer.bucket_pos_now + d + 1 < e.shared.timer.bucket_size
    → d < fuel
    → (v : Env) × (deal fuel (some es) now now' e ≡ some v)
      × AllServed e v es d
      × (v.last_check_time ≡ now')
unfolding deal poll_end
deal-AllServed e es now now' d fuel waiting few r clock room enough =
    let w = e.shared in
    let (u, q, bt) = events-Between es w waiting few in
    let position = bt.position in
    let size = bt.size in
    let since = bt.clock in
    let x = callback_all es u in
    let (v, eq, ready, message, last, _) =
      deal_timer-TimedOut (record e { shared = x }) now now' d fuel
        (record {
          pos_lt = omega (arith, r.pos_lt);
          size_small = omega (arith, r.size_small);
          clock = omega (arith, r.clock);
          now_small = r.now_small;
        })
        (omega arith) (omega arith) enough in
    let ts = due x.timer.bucket (x.timer.bucket_pos_now + 1) d in
    (
      v,
      deal-run e es u v now now' fuel q eq,
      λ m b s. record {
        ready =
            ap (times m) ready
            ∙ times-append m x.ready ts
            ∙ combined (events_of m es) (passes w.timer d b) (times m w.ready) (times m x.ready)
                (times m ts) (bt.ready m)
                (times-due x.timer.bucket m (if events_of m es == 0 then 1 else 0) b
                    (x.timer.bucket_pos_now + 1) d (λ j. bt.buckets m b j s)
                  ∙ ap
                      (λ k.
                        if leb (k + 1) b && ltb b (k + 1 + d)
                        then (if events_of m es == 0 then 1 else 0)
                        else 0)
                      position);
        returns = ap to_int (ap (λ p. p.active_fds_nums) (message m) ∙ bt.events m b s);
        joined = ap (λ p. p.is_join_active_list) (message m) ∙ bt.joined m b s;
      },
      last,
    )

-- In a pass whose events are all for waiting calls of `poll`, and in which the wheel advances by
-- `d` milliseconds and stays short of the last bucket of its array, a waiting call is made ready
-- exactly once if it has an event or its time is up, also where both hold or it has several events,
-- and not at all otherwise. It then returns the number of its events, narrowed to an `int`, and it is
-- marked as joined if and only if it has one. The pass ends, and notes its time. The clock has not gone back, no call
-- has 2^64 - 1 events or more, and there is fuel for each millisecond.
pub deal-Served :
    (e : Env) (es : List Event) (now now' d fuel m b : ℕ)
    → ((n : ℕ) → 0 < events_of n es → (c : ℕ) × IsWaiting e.shared n c)
    → ((n : ℕ) → events_of n es + 1 < u64)
    → IsRunning e.shared.timer now
    → now ≡ e.shared.timer.last_check_time + d
    → e.shared.timer.bucket_pos_now + d + 1 < e.shared.timer.bucket_size
    → d < fuel
    → IsWaiting e.shared m b
    → (v : Env) × (deal fuel (some es) now now' e ≡ some v)
      × Served e v es d m b
      × (v.last_check_time ≡ now')
deal-Served e es now now' d fuel m b waiting few r clock room enough at =
    let (v, run, served, last) =
      deal-AllServed e es now now' d fuel waiting few r clock room enough in
    (v, run, served m b at, last)
