-- ===== src/Hooks/Calls.antt =====
-- The other hooked transfers of src/b_hook.cc: `connect`, `sendto` and `recvfrom`. What a call of the
-- system answers is the value that it returns with the `errno` that it leaves; `getsockopt` of
-- `SO_ERROR` answers what it returns with the `errno` that it leaves or, where it succeeds, the error of
-- the socket; `poll` answers what it returns with the `revents` of its one entry.
pub mod Bounds
pub mod Direct
use b_routine.Base.{
  ℕ, zero, suc, ◌+◌, ◌-◌, ◌*◌, ◌/◌, ◌%◌, ◌^◌, Bool, true, false, not, ◌&&◌, ◌||◌, Option, none,
  some, ◌==◌, if◌then◌else◌,
}
use b_routine.Hooks.{ℤ, pos, negsuc, FileDesc, FdSet, get_file_desc, has_nonblock}
use b_routine.Hooks.Waits.{timeout_ms, dispatch}
use b_routine.Poll.Events.{pollout, has}

-- A value of `errno`, of Linux.
abbrev pub eagain : ℕ
eagain = 11

abbrev pub einprogress : ℕ
einprogress = 115

abbrev pub etimedout : ℕ
etimedout = 110

pub record Answer : Type 0 where
  pub ret : ℤ
  pub errno : ℕ

abbrev pub is_negative : ℤ → Bool
is_negative (pos n) = false
is_negative (negsuc n) = true

abbrev pub answer : ℤ → ℕ → Answer
answer ret errno = record { ret = ret; errno = errno }

module _ {S : Type 0} (poll : (timeout : ℕ) → S → (ℕ × ℕ) × S) (sys_call : S → Answer × S)
    (sys_getsockopt : S → (ℤ × ℕ) × S) where
  -- `sendto` from its first call of the system on.
  unfoldable pub sendto_waiting : (timeout : ℕ) → S → Answer × S
  sendto_waiting timeout s =
      let (first, s1) = sys_call s in
      if is_negative first.ret && first.errno == eagain
      then sys_call (poll timeout s1).1
      else (first, s1)

  -- `sendto`, with the system's call on its arguments.
  unfoldable pub sendto : Bool → ℤ → FdSet → S → Answer × S
  unfolding sendto_waiting get_file_desc has_nonblock
  sendto hook fd t s =
      dispatch hook fd t (sys_call s) (λ lp. sendto_waiting (timeout_ms lp.wtimeout) s)

  -- `recvfrom`, likewise.
  unfoldable pub recvfrom : Bool → ℤ → FdSet → S → Answer × S
  unfolding get_file_desc has_nonblock
  recvfrom hook fd t s =
      dispatch hook fd t (sys_call s) (λ lp. sys_call (poll (timeout_ms lp.rtimeout) s).1)

  -- The loop of `connect`, on the rounds left, with `pf.revents`.
  unfoldable pub connect_loop : (rounds revents : ℕ) → S → ℕ × S
  connect_loop zero revents s = (revents, s)
  connect_loop (suc rounds) revents s =
      let ((pollret, found), s') = poll 25000 s in
      let rest = connect_loop rounds found s' in if pollret == 1 then (found, s') else rest

  -- `connect` behind the loop, with the value that the system's `connect` returned.
  unfoldable pub connect_checked : ℤ → ℕ × S → Answer × S
  connect_checked ret (revents, s) =
      if has revents pollout
      then (let ((r, err), s') = sys_getsockopt s in
          if is_negative r
          then (answer r err, s')
          else (if err == 0 then (answer (pos 0) 0, s') else (answer (negsuc 0) err, s')))
      else (answer ret etimedout, s)

  -- `connect` on a registered descriptor, once the system has answered.
  unfoldable pub connect_registered : FileDesc → Answer × S → Answer × S
  unfolding connect_loop connect_checked has_nonblock
  connect_registered lp (first, s) =
      if has_nonblock lp.user_flags || not (is_negative first.ret && first.errno == einprogress)
      then (first, s)
      else connect_checked first.ret (connect_loop 3 0 s)

  -- `connect`. The address that it keeps in the descriptor is never read.
  unfoldable pub connect : Bool → ℤ → FdSet → S → Answer × S
  unfolding connect_registered get_file_desc
  connect hook fd t s = if not hook then sys_call s else elim (get_file_desc fd t) [
    | none ↦ sys_call s
    | some lp ↦ connect_registered lp (sys_call s)
  ]
