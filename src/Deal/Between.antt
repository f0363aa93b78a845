-- ===== src/Deal/Between.antt =====
-- The two parts of a pass of `Deal` (src/b_routine_env.cc): the events, and the timer behind them.
use b_routine.Base.{
  In, ℕ, zero, suc, ◌+◌, ◌<◌, ◌≡◌, refl, sym, subst, ap, ◌∙◌, ◌⊎◌, inl, inr, Bool, not, ◌&&◌, List,
  ◌++◌, some, arith, ltb, leb, ◌==◌, if◌then◌else◌, times, times-append,
}
use b_routine.Wheel.{Timer, settle}
use b_routine.Wheel.Merge.{due, cleared, IsRunning, new_merge_update_to_now-due}
use b_routine.Poll.{u64, Shared, Event}
use b_routine.Poll.Batch.{perpare_all, callback_all, events_of, IsWaiting, IsNoted, Seen}
use b_routine.Poll.Prepared.{perpare_all-Prepares}
use b_routine.Poll.Called.{callback_all-Called}
use b_routine.Deal.Rings.{time_out_all-rings}
use b_routine.Deal.{cond, Env, time_out_all, deal_timer, deal}
use b_routine.Deal.Timeouts.{flagged, time_out_all-TimedOut}

-- How often a task is due that stands in the bucket `b` alone, `k` times.
pub times-due :
    (f : ℕ → List ℕ) (m k b i n : ℕ)
    → ((j : ℕ) → times m (f j) ≡ (if j == b then k else 0))
    → times m (due f i n) ≡ (if leb i b && ltb b (i + n) then k else 0)
times-due f m k b i zero h = ground arith
times-due f m k b i (suc n) h =
    ground (arith, times-append m (f i) (due f (i + 1) n), h i, times-due f m k b (i + 1) n h)

-- Whether the bucket is among those that an advance by `d` goes through.
abbrev pub passes : Timer → ℕ → ℕ → Bool
passes t d b = leb (t.bucket_pos_now + 1) b && ltb b (t.bucket_pos_now + 1 + d)

-- The timer's part of the pass.
pub deal_timer-TimedOut :
    (e : Env) (now now' d fuel : ℕ)
    → IsRunning e.shared.timer now
    → now ≡ e.shared.timer.last_check_time + d
    → e.shared.timer.bucket_pos_now + d + 1 < e.shared.timer.bucket_size
    → d < fuel
    → (v : Env) × (deal_timer fuel now now' e ≡ some v)
      × (v.shared.ready
          ≡ e.shared.ready ++ due e.shared.timer.bucket (e.shared.timer.bucket_pos_now + 1) d)
      × ((m : ℕ)
          → v.shared.message m
            ≡ flagged
                (due e.shared.timer.bucket (e.shared.timer.bucket_pos_now + 1) d)
                m
                (e.shared.message m))
      × (v.last_check_time ≡ now')
      × ((t a : ℕ)
          → In t (due e.shared.timer.bucket (e.shared.timer.bucket_pos_now + 1) d)
          → e.on_timeout t ≡ cond a
          → v.is_timeout a ≡ 1)
unfolding deal_timer
deal_timer-TimedOut e now now' d fuel r clock room enough =
    let w = e.shared in
    let ts = due w.timer.bucket (w.timer.bucket_pos_now + 1) d in
    let t =
      settle (w.timer.bucket_pos_now + d) now (cleared w.timer (w.timer.bucket_pos_now + 1) d) in
    let merged = (new_merge_update_to_now-due w.timer now d fuel r clock room enough).0 in
    let e' : Env = record e { shared = record w { timer = t } } in
    let done = time_out_all-TimedOut ts e' in
    (
      record (time_out_all ts e') { last_check_time = now' },
      rw (merged, deal_timer) refl,
      done.ready,
      done.messages,
      refl,
      time_out_all-rings ts e',
    )

Seen-IsNoted : (w : Shared) (m n : ℕ) → 0 < n → Seen w m n → IsNoted w m n
Seen-IsNoted w m zero h s = absurd (omega arith)
Seen-IsNoted w m (suc n) h s = s

-- The state between the events and the timer, for a batch that is all for waiting calls.
pub record Between (w x : Shared) (es : List Event) : Type 0 where
  pub position : x.timer.bucket_pos_now ≡ w.timer.bucket_pos_now
  pub size : x.timer.bucket_size ≡ w.timer.bucket_size
  pub clock : x.timer.last_check_time ≡ w.timer.last_check_time
  pub ready : (m : ℕ) → times m x.ready ≡ times m w.ready + (if events_of m es == 0 then 0 else 1)
  pub events : (m b : ℕ) → IsWaiting w m b → (x.message m).active_fds_nums ≡ events_of m es
  pub joined :
      (m b : ℕ) → IsWaiting w m b → (x.message m).is_join_active_list ≡ not (events_of m es == 0)
  pub buckets :
      (m b j : ℕ)
      → IsWaiting w m b
      → times m (x.timer.bucket j) ≡ (if j == b then (if events_of m es == 0 then 1 else 0) else 0)
  pub unmoved :
      (m j : ℕ) → events_of m es ≡ 0 → times m (x.timer.bucket j) ≡ times m (w.timer.bucket j)

zero_or_pos : (n : ℕ) → (n ≡ 0) ⊎ (0 < n)
zero_or_pos n = omega arith

pub events-Between :
    (es : List Event) (w : Shared)
    → ((m : ℕ) → 0 < events_of m es → (b : ℕ) × IsWaiting w m b)
    → ((m : ℕ) → events_of m es + 1 < u64)
    → (u : Shared) × (perpare_all es w ≡ some u) × Between w (callback_all es u) es
events-Between es w waiting few =
    let (u, q, kept, seen, same) =
      perpare_all-Prepares es (λ m. 0) w waiting (λ m. omega (arith, few m)) in
    let noted : (m : ℕ) → 0 < events_of m es → IsNoted u m (events_of m es) = λ m h.
      let whole : 0 + events_of m es ≡ events_of m es = omega arith in
      Seen-IsNoted u m (events_of m es) h (subst (Seen u m) whole (seen m h)) in
    let c =
      callback_all-Called es u
        (λ m h. record { counter = (noted m h).events.1; not_joined = (noted m h).not_joined })
        (λ m. omega (arith, few m)) in
    (
      u,
      q,
      record {
        unmoved = λ m j z. ap (λ t. times m (t.bucket j)) c.timer ∙ (same m z).1 j;
        position = ap (λ t. t.bucket_pos_now) c.timer ∙ kept.position;
        size = ap (λ t. t.bucket_size) c.timer ∙ kept.size;
        clock = ap (λ t. t.last_check_time) c.timer ∙ kept.clock;
        ready = λ m.
            c.ready m ∙ ap (λ l. times m l + (if events_of m es == 0 then 0 else 1)) kept.ready;
        events = λ m b s. elim (zero_or_pos (events_of m es)) [
          | inl z ↦
              ap (λ p. p.active_fds_nums) (c.others m z ∙ (same m z).0) ∙ s.no_events.0 ∙ sym z
          | inr h ↦ (c.rest m).0 ∙ (noted m h).events.0
        ];
        joined = λ m b s. elim (zero_or_pos (events_of m es)) [
          | inl z ↦
              ap (λ p. p.is_join_active_list) (c.others m z ∙ (same m z).0)
              ∙ s.not_joined
              ∙ ground arith
          | inr h ↦ c.joined m h ∙ ground arith
        ];
        buckets = λ m b j s.
            ap (λ t. times m (t.bucket j)) c.timer
            ∙ elim (zero_or_pos (events_of m es))
                as (λ x.
                  times m (u.timer.bucket j)
                  ≡ (if j == b then (if events_of m es == 0 then 1 else 0) else 0)) [
                    | inl z ↦ (same m z).1 j ∙ s.once j ∙ ground arith
                    | inr h ↦ (noted m h).off_timer j ∙ ground arith
                  ];
      },
    )

-- A pass, by its two parts.
pub deal-run :
    (e : Env) (es : List Event) (u : Shared) (v : Env) (now now' fuel : ℕ)
    → perpare_all es e.shared ≡ some u
    → deal_timer fuel now now' (record e { shared = callback_all es u }) ≡ some v
    → deal fuel (some es) now now' e ≡ some v
unfolding deal
deal-run e es u v now now' fuel q r = rw (q, deal) r
