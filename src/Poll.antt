-- ===== src/Poll.antt =====
-- The hooked `poll` of src/b_hook.cc: `poll_message`, its three callbacks and the call itself.
-- A message is known by the pointer of its `task`. What `epoll_ctl` and `AddTask` are called with is
-- kept in order; the buckets of the timer hold the pointers of the tasks, as those of Wheel do.
pub mod Events
pub mod Batch
pub mod Prepared
pub mod Called
pub mod Begin
mod Examples
use b_routine.Base.{
  ℕ, zero, suc, ◌+◌, ◌-◌, ◌%◌, ◌^◌, Bool, true, false, not, ◌&&◌, ◌||◌, List, [], ◌∷◌, ◌++◌, Option,
  none, some, ◌==◌, ltb, if◌then◌else◌, length,
}
use b_routine.Hooks.{ℤ, pos, negsuc, is_zero}
use b_routine.Wheel.{Timer, get_bucket, push_task}
use b_routine.Poll.Events.{epoll_to_poll_events, poll_to_epoll_events}

abbrev pub u64 : ℕ
u64 = 2 ^ 64

-- `struct pollfd`.
pub record PollFd : Type 0 where
  pub fd : ℕ
  pub events : ℕ
  pub revents : ℕ

-- `poll_message`, with the bucket in which its task stands, if any, and the task's `IsTasktimeout`.
pub record Message : Type 0 where
  pub pollfds : List PollFd
  pub active_fds_nums : ℕ
  pub active_fds_nums2 : ℕ
  pub is_join_active_list : Bool
  pub is_remove_from_timeout_list : Bool
  pub owner : Option ℕ
  pub is_task_timeout : Bool

-- A call of `epoll_ctl`.
pub data Ctl : Type 0 where
  ctl_add : (fd events : ℕ) → Ctl
  ctl_del : (fd : ℕ) → Ctl

-- What the calls of `poll` and the environment share.
pub record Shared : Type 0 where
  pub message : ℕ → Message
  pub timer : Timer
  pub ctl : List Ctl
  pub ready : List ℕ

abbrev pub put {ℓ} : {A : Type ℓ} → (ℕ → A) → ℕ → A → ℕ → A
put f p v a = if a == p then v else f a

-- The constructor's loop clears `revents` and makes an item for each entry.
abbrev pub cleared : List PollFd → List PollFd
cleared [] = []
cleared (p ∷ ps) = record p { revents = 0 } ∷ cleared ps

-- `poll_message::poll_message`.
pub new_message : List PollFd → Message
new_message fds = record {
  pollfds = cleared fds;
  active_fds_nums = 0;
  active_fds_nums2 = 0;
  is_join_active_list = false;
  is_remove_from_timeout_list = false;
  owner = none;
  is_task_timeout = false;
}

-- The loops of `EPOLL_CTL_ADD` and of `EPOLL_CTL_DEL`.
abbrev pub adds : List PollFd → List Ctl
adds [] = []
adds (p ∷ ps) = ctl_add p.fd (poll_to_epoll_events p.events) ∷ adds ps

abbrev pub dels : List PollFd → List Ctl
dels [] = []
dels (p ∷ ps) = ctl_del p.fd ∷ dels ps

-- The milliseconds that `poll` asks the timer for.
abbrev pub ms_want : ℤ → ℕ
ms_want (pos n) = n
ms_want (negsuc n) = 2 ^ 63 - 1

-- The part of `poll` from the message on, up to `SwapContext`, with the pointer of the task.
unfoldable pub poll_begin : (m : ℕ) → List PollFd → (timeout : ℤ) → Shared → Shared
unfolding new_message
poll_begin m fds timeout w =
    let b = get_bucket w.timer (ms_want timeout) in
    record w {
      message = put w.message m (record (new_message fds) { owner = some b });
      timer = push_task w.timer b m;
      ctl = w.ctl ++ adds (cleared fds);
    }

-- `poll` up to `SwapContext`, with what `isEnableHook` answers. `none` is the system's `poll`, which is
-- called instead.
unfoldable pub poll_call : Bool → (m : ℕ) → List PollFd → (timeout : ℤ) → Shared → Option Shared
unfolding poll_begin
poll_call hook m fds timeout w =
    if not hook || is_zero timeout then none else some (poll_begin m fds timeout w)

-- The loop of `pollPerpare`.
pub set_revents : (fd events : ℕ) → List PollFd → List PollFd
set_revents fd events [] = []
set_revents fd events (p ∷ ps) =
    if p.fd == fd then record p { revents = events } ∷ ps else p ∷ set_revents fd events ps

-- An event of epoll for an item of a message.
pub record Event : Type 0 where
  pub message : ℕ
  pub fd : ℕ
  pub events : ℕ

abbrev pub without : ℕ → List ℕ → List ℕ
without t [] = []
without t (x ∷ xs) = if x == t then xs else x ∷ without t xs

-- `RemoveSelfFromOwnerlink_Save` of the message's task, which stands in a bucket. `none` is a task
-- that does not: its owner is null, or a ready list.
pub leave_timer : (m : ℕ) → Shared → Option Shared
leave_timer m w = elim ((w.message m).owner) [
  | none ↦ none
  | some b ↦ some (record w {
    message = put w.message m (record (w.message m) { owner = none });
    timer = record (w.timer) { bucket = put (w.timer).bucket b (without m ((w.timer).bucket b)) };
  })
]

-- What `pollPerpare` does to the message before it looks at the timeout.
abbrev pub noted : Event → Message → Message
noted e pm = record pm {
  pollfds = set_revents e.fd (epoll_to_poll_events e.events) pm.pollfds;
  active_fds_nums = (pm.active_fds_nums + 1) % u64;
  active_fds_nums2 = (pm.active_fds_nums2 + 1) % u64;
}

-- `pollPerpare`.
pub poll_perpare : Event → Shared → Option Shared
unfolding leave_timer
poll_perpare e w =
    let pm = noted e (w.message e.message) in
    if pm.is_remove_from_timeout_list
    then some (record w { message = put w.message e.message pm })
    else leave_timer e.message (record w {
      message = put w.message e.message (record pm { is_remove_from_timeout_list = true });
    })

-- `pollCallback`.
pub poll_callback : (m : ℕ) → Shared → Shared
poll_callback m w =
    let count = ((w.message m).active_fds_nums2 + (u64 - 1)) % u64 in
    let pm = record (w.message m) { active_fds_nums2 = count } in
    if not pm.is_join_active_list && count == 0
    then record w {
      message = put w.message m (record pm { is_join_active_list = true });
      ctl = w.ctl ++ dels pm.pollfds;
      ready = w.ready ++ m ∷ [];
    }
    else record w { message = put w.message m pm }

-- `pollTimeout`.
unfoldable pub poll_timeout : (m : ℕ) → Shared → Shared
poll_timeout m w = record w { ctl = w.ctl ++ dels (w.message m).pollfds }

-- The conversion of a `size_t` to an `int`.
abbrev pub to_int : ℕ → ℤ
to_int n = let low = n % 2 ^ 32 in if ltb low (2 ^ 31) then pos low else negsuc (2 ^ 32 - 1 - low)

-- `poll` behind `SwapContext`: what it returns.
unfoldable pub poll_end : (m : ℕ) → Shared → ℤ × Shared
poll_end m w =
    let pm = w.message m in
    (
      to_int pm.active_fds_nums,
      if not pm.is_join_active_list && not pm.is_task_timeout
          then record w { ctl = w.ctl ++ dels pm.pollfds }
          else w,
    )
