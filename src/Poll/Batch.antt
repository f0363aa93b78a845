-- ===== src/Poll/Batch.antt =====
-- A batch of epoll's events for waiting calls of `poll` (src/b_hook.cc): the environment prepares
-- every event of the batch first, and calls the callbacks behind that (src/b_routine_env.cc).
use b_routine.Base.{
  ℕ, zero, suc, ◌+◌, ◌<◌, ◌≡◌, ◌≢◌, refl, true, false, List, [], ◌∷◌, Option, none, some, arith,
  ◌==◌, if◌then◌else◌, times,
}
use b_routine.Poll.{u64, Shared, put, Event, without, noted, poll_perpare, poll_callback}

-- The two loops of `Deal` over the events.
unfoldable pub perpare_all : List Event → Shared → Option Shared
perpare_all [] w = some w
perpare_all (e ∷ es) w = elim (poll_perpare e w) [ none ↦ none | some v ↦ perpare_all es v ]

unfoldable pub callback_all : List Event → Shared → Shared
callback_all [] w = w
callback_all (e ∷ es) w = callback_all es (poll_callback e.message w)

-- How many events of the batch are for the message.
abbrev pub events_of : ℕ → List Event → ℕ
events_of m [] = 0
events_of m (e ∷ es) = (if e.message == m then 1 else 0) + events_of m es

-- The call of `poll` waits, with its task in the bucket `b`, and nothing has happened to it yet.
pub record IsWaiting (w : Shared) (m b : ℕ) : Type 0 where
  pub owned : (w.message m).owner ≡ some b
  pub no_events : ((w.message m).active_fds_nums ≡ 0) × ((w.message m).active_fds_nums2 ≡ 0)
  pub not_joined : (w.message m).is_join_active_list ≡ false
  pub not_removed : (w.message m).is_remove_from_timeout_list ≡ false
  pub once : (j : ℕ) → times m (w.timer.bucket j) ≡ (if j == b then 1 else 0)

-- `c` events have been prepared for it, at least one, and its task is off the timer.
pub record IsNoted (w : Shared) (m c : ℕ) : Type 0 where
  pub events : ((w.message m).active_fds_nums ≡ c) × ((w.message m).active_fds_nums2 ≡ c)
  pub not_joined : (w.message m).is_join_active_list ≡ false
  pub removed : (w.message m).is_remove_from_timeout_list ≡ true
  pub unowned : (w.message m).owner ≡ none
  pub off_timer : (j : ℕ) → times m (w.timer.bucket j) ≡ 0

abbrev pub Seen : Shared → (m c : ℕ) → Type 0
Seen w m zero = (b : ℕ) × IsWaiting w m b
Seen w m (suc c) = IsNoted w m (suc c)

-- Nothing of the message has changed, nor how often its task stands in the buckets.
abbrev pub Same : Shared → Shared → ℕ → Type 0
Same w v m =
    (v.message m ≡ w.message m)
    × ((j : ℕ) → times m (v.timer.bucket j) ≡ times m (w.timer.bucket j))

-- What preparing an event leaves alone.
pub record Kept (w v : Shared) : Type 0 where
  pub ready : v.ready ≡ w.ready
  pub ctl : v.ctl ≡ w.ctl
  pub position : v.timer.bucket_pos_now ≡ w.timer.bucket_pos_now
  pub size : v.timer.bucket_size ≡ w.timer.bucket_size
  pub clock : v.timer.last_check_time ≡ w.timer.last_check_time

times-without : (t : ℕ) (xs : List ℕ) → times t xs ≡ 1 → times t (without t xs) ≡ 0
times-without t [] h = absurd (omega arith)
times-without t (x ∷ xs) h = ground (arith, times-without t xs)

times-without_ne : (a t : ℕ) (xs : List ℕ) → a ≢ t → times a (without t xs) ≡ times a xs
times-without_ne a t [] h = refl
times-without_ne a t (x ∷ xs) h = ground (arith, times-without_ne a t xs h)

abbrev pub Steps : Event → Shared → ℕ → Type 0
Steps e w c =
    (v : Shared) × (poll_perpare e w ≡ some v)
    × IsNoted v e.message (suc c)
    × Kept w v
    × ((m : ℕ) → m ≢ e.message → Same w v m)

-- The shared state after the first event of a message, its task in the bucket `b`.
abbrev flagged : Event → Shared → Shared
flagged e w = record w {
  message =
      put w.message e.message
        (record (noted e (w.message e.message)) { is_remove_from_timeout_list = true });
}

abbrev taken : Event → ℕ → Shared → Shared
taken e b w =
    let u = flagged e w in
    record u {
      message = put u.message e.message (record (u.message e.message) { owner = none });
      timer = record (u.timer) {
        bucket = put (u.timer).bucket b (without e.message ((u.timer).bucket b));
      };
    }

perpare-taken :
    (e : Event) (w : Shared) (b : ℕ)
    → (w.message e.message).owner ≡ some b
    → (w.message e.message).is_remove_from_timeout_list ≡ false
    → poll_perpare e w ≡ some (taken e b w)
unfolding poll_perpare
perpare-taken e w b o r = ground arith

pub perpare-first : (e : Event) (w : Shared) (b : ℕ) → IsWaiting w e.message b → Steps e w 0
perpare-first e w b v = (
  taken e b w,
  perpare-taken e w b v.owned v.not_removed,
  record {
    events = (ground arith, ground arith);
    not_joined = ground arith;
    removed = ground arith;
    unowned = ground arith;
    off_timer = λ j. ground (arith, v.once j, times-without e.message (w.timer.bucket b));
  },
  record { ready = refl; ctl = refl; position = refl; size = refl; clock = refl },
  λ m d. (ground arith, λ j. ground (arith, times-without_ne m e.message (w.timer.bucket b) d)),
)

abbrev counted : Event → Shared → Shared
counted e w = record w { message = put w.message e.message (noted e (w.message e.message)) }

pub perpare-again :
    (e : Event) (w : Shared) (c : ℕ)
    → IsNoted w e.message (suc c)
    → suc (suc c) < u64
    → Steps e w (suc c)
unfolding poll_perpare
perpare-again e w c v small = (
  counted e w,
  ground arith,
  record {
    events = (ground arith, ground arith);
    not_joined = ground arith;
    removed = ground arith;
    unowned = ground arith;
    off_timer = v.off_timer;
  },
  record { ready = refl; ctl = refl; position = refl; size = refl; clock = refl },
  λ m d. (ground arith, λ j. refl),
)
