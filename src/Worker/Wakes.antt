-- ===== src/Worker/Wakes.antt =====
-- A round of `ProcessBegin` (src/b_scheduler.cc) and the calls of the hooked `poll` whose time has come.
use b_routine.Base.{
  ℕ, ◌+◌, ◌-◌, ◌%◌, ◌<◌, ◌≡◌, refl, sym, subst, ap, ◌∙◌, ◌⊎◌, inl, inr, true, false, List, [], ◌∷◌,
  ◌++◌, In, In-append_right, Option, some, arith, ◌==◌, In-times, append_assoc, append-nil,
}
use b_routine.Wheel.Merge.{IsRunning}
use b_routine.Scheduler.{World, add_task, swap_context, dispatch}
use b_routine.Poll.{Event}
use b_routine.Poll.Batch.{events_of, IsWaiting}
use b_routine.Deal.{Env, deal}
use b_routine.Deal.Between.{passes}
use b_routine.Deal.Once.{Served, deal-AllServed}
use b_routine.Worker.{u64, Machine, add_all, deal_tasks, Input, check_env, switches, round}

abbrev selves : (ℕ → ℕ) → List ℕ → List ℕ
selves f [] = []
selves f (t ∷ ts) = f t ∷ selves f ts

In-selves : (f : ℕ → ℕ) (t : ℕ) (ts : List ℕ) → In t ts → In (f t) (selves f ts)
In-selves f t [] h = h
In-selves f t (x ∷ ts) (inl e) = inl (ap f e)
In-selves f t (x ∷ ts) (inr h) = inr (In-selves f t ts h)

abbrev with_ready : World → List ℕ → World
with_ready w l = record w { ready = l }

pub add_all-ready :
    (f : ℕ → ℕ) (ts : List ℕ) (w : World)
    → ((t : ℕ) → (w.routine (f t)).is_progress ≡ false)
    → add_all f ts w ≡ some (with_ready w (w.ready ++ selves f ts))
unfolding add_all add_task
add_all-ready f [] w h = ap (λ l. some (with_ready w l)) (sym (append-nil w.ready))
add_all-ready f (t ∷ ts) w h =
    rw (h t, add_all)
      (add_all-ready f ts (with_ready w (w.ready ++ f t ∷ [])) h
        ∙ ap (λ l. some (with_ready w l)) (append_assoc w.ready (f t ∷ []) (selves f ts)))

-- The scheduler's own routine runs.
abbrev pub InLoop : World → Type 0
InLoop w = (w.routine w.occupy).is_main ≡ false

-- Where a routine is ready, the round switches to the first one.
dispatch-In :
    (w : World) (l : List ℕ) (r : ℕ)
    → InLoop w
    → In r l
    → (v : World) × (dispatch (with_ready w l) ≡ some v) × In r (v.occupy ∷ v.ready)
unfolding dispatch swap_context
dispatch-In w [] r m h = absurd h
dispatch-In w (x ∷ xs) r m h = elim h [
  | inl e ↦ (record w { ready = xs; occupy = x; pending = w.occupy }, rw m refl, inl e)
  | inr k ↦ (record w { ready = xs; occupy = x; pending = w.occupy }, rw m refl, inr k)
]

-- A waiting call that is served stands in the queue of the tasks that the pass has added.
Served-In :
    (e v : Env) (es : List Event) (d m b : ℕ)
    → Served e v es d m b
    → (0 < events_of m es) ⊎ (passes e.shared.timer d b ≡ true)
    → In m v.shared.ready
Served-In e v es d m b s h = In-times m v.shared.ready (let r = s.ready in ground arith)

-- A check in which `Deal` runs.
pub check_env-deals :
    (fuel : ℕ) (i : Input) (m n : Machine)
    → ((i.now + u64 - m.env.last_check_time) % u64 == 0) ≡ false
    → i.lock_free ≡ true
    → deal_tasks fuel i.events i.now_timer i.now_end m ≡ some n
    → check_env fuel i m ≡ some n
unfolding check_env
check_env-deals fuel i m n late free e = rw (late, free) e

deal_tasks-ready :
    (fuel now now' : ℕ) (events : Option (List Event)) (m : Machine) (e : Env)
    → ((t : ℕ) → (m.world.routine (m.self_of t)).is_progress ≡ false)
    → deal fuel events now now' m.env ≡ some e
    → deal_tasks fuel events now now' m
      ≡ some (record m {
        world = with_ready m.world (m.world.ready ++ selves m.self_of e.shared.ready);
        env = record e { shared = record (e.shared) { ready = [] } };
      })
unfolding deal_tasks
deal_tasks-ready fuel now now' events m e h q =
    rw (q, add_all-ready m.self_of e.shared.ready m.world h, deal_tasks) refl

-- A round that switches.
pub round-dispatch :
    (fuel : ℕ) (i : Input) (m v : Machine) (w : World)
    → check_env fuel i m ≡ some v
    → dispatch v.world ≡ some w
    → round fuel i m ≡ some (switches, record v { world = w })
unfolding round
round-dispatch fuel i m v w c d = rw (c, d, round) refl

-- The times and the events of a round are such that `Deal` runs and ends, and serves waiting calls of
-- `poll` only.
pub record CanDeal (fuel : ℕ) (i : Input) (m : Machine) (es : List Event) (d : ℕ) : Type 0 where
  pub late : ((i.now + u64 - m.env.last_check_time) % u64 == 0) ≡ false
  pub free : i.lock_free ≡ true
  pub events : i.events ≡ some es
  pub waiting : (n : ℕ) → 0 < events_of n es → (c : ℕ) × IsWaiting m.env.shared n c
  pub few : (n : ℕ) → events_of n es + 1 < u64
  pub running : IsRunning m.env.shared.timer i.now_timer
  pub clock : i.now_timer ≡ m.env.shared.timer.last_check_time + d
  pub room : m.env.shared.timer.bucket_pos_now + d + 1 < m.env.shared.timer.bucket_size
  pub fuel_enough : d < fuel
  pub resumable : (t : ℕ) → (m.world.routine (m.self_of t)).is_progress ≡ false

-- In a round in which the clock has moved on and the lock is free, a routine that waits in the
-- hooked `poll` for an event that has come, or whose time is up, is switched to or stands in the
-- ready list behind the one that is. The round is the scheduler's own; the events are all for
-- waiting calls, the wheel stays short of the last bucket of its array, and no task is for a
-- routine whose `IsProgress` is set. The clock has not gone back, no call has 2^64 - 1 events or
-- more, and there is fuel for each millisecond.
pub round-wakes :
    (fuel : ℕ) (i : Input) (m : Machine) (es : List Event) (d t b : ℕ)
    → InLoop m.world
    → CanDeal fuel i m es d
    → IsWaiting m.env.shared t b
    → (0 < events_of t es) ⊎ (passes m.env.shared.timer d b ≡ true)
    → (v : Machine) × (round fuel i m ≡ some (switches, v))
      × In (m.self_of t) (v.world.occupy ∷ v.world.ready)
round-wakes fuel i m es d t b loop c at due =
    let (e, run, served, _) =
      deal-AllServed m.env es i.now_timer i.now_end d fuel c.waiting c.few c.running c.clock c.room
        c.fuel_enough in
    let added = selves m.self_of e.shared.ready in
    let here =
      In-selves m.self_of t e.shared.ready (Served-In m.env e es d t b (served t b at) due) in
    let run' = subst (λ o. deal fuel o i.now_timer i.now_end m.env ≡ some e) (sym c.events) run in
    let dealt = deal_tasks-ready fuel i.now_timer i.now_end i.events m e c.resumable run' in
    let (w, q, inside) =
      dispatch-In m.world (m.world.ready ++ added) (m.self_of t) loop
        (In-append_right (m.self_of t) m.world.ready added here) in
    (
      record m { world = w; env = record e { shared = record (e.shared) { ready = [] } } },
      round-dispatch fuel i m _ w (check_env-deals fuel i m _ c.late c.free dealt) q,
      inside,
    )
