-- ===== src/Hooks/Waits.antt =====
-- The hooked transfers of src/b_hook.cc: `write` and `send`, which go on until all is written, and
-- `read` and `recv`, which wait until something can be read. The system's call and the hooked `poll`
-- are arguments on a state `S`; a transfer is told where in the buffer it starts and how long it is.
pub mod Written
pub mod Polls
use b_routine.Base.{
  ℕ, zero, suc, ◌+◌, ◌-◌, ◌*◌, ◌/◌, ◌%◌, ◌^◌, Bool, true, false, not, ◌&&◌, Option, none, some,
  ◌==◌, ltb, if◌then◌else◌,
}
use b_routine.Hooks.{ℤ, pos, negsuc, is_zero, Timeval, FileDesc, FdSet, get_file_desc, has_nonblock}

-- The milliseconds that `poll` is given, as the bits of an `int`.
abbrev pub timeout_ms : Timeval → ℕ
timeout_ms tv = (tv.sec * 1000 + tv.usec / 1000) % 2 ^ 32

-- What a transfer adds to the count: nothing where it failed.
abbrev pub amount : ℤ → ℕ
amount (pos n) = n
amount (negsuc n) = 0

-- The start of each hooked transfer: straight to the system where the hooks are off, the descriptor
-- is not registered, or the program set it to `O_NONBLOCK`.
abbrev pub dispatch : {A : Type 0} → Bool → ℤ → FdSet → A → (FileDesc → A) → A
dispatch hook fd t direct waiting = if not hook then direct else elim (get_file_desc fd t) [
  | none ↦ direct
  | some lp ↦ if has_nonblock lp.user_flags then direct else waiting lp
]

module _ {S : Type 0} (poll : (timeout : ℕ) → S → ℕ × S)
    (sys_write : (offset len : ℕ) → S → ℤ × S) where
  -- The loop of `write`, with `wrotelen` and `writeret`.
  unfoldable pub write_loop :
      (fuel timeout nbyte wrotelen : ℕ) → (writeret : ℤ) → S → Option ((ℕ × ℤ) × S)
  write_loop zero timeout nbyte wrotelen writeret s = none
  write_loop (suc fuel) timeout nbyte wrotelen writeret s =
      let (polled, s1) = poll timeout s in
      let (ret, s2) = sys_write wrotelen (nbyte - wrotelen) s1 in
      let rest = write_loop fuel timeout nbyte (wrotelen + amount ret) ret s2 in
      if ltb wrotelen nbyte
      then (if ltb 0 (amount ret) then rest else some ((wrotelen, ret), s2))
      else some ((wrotelen, writeret), s)

  -- What is returned behind the loop.
  abbrev pub written : ℕ × ℤ → ℤ
  written (wrotelen, writeret) =
      if (amount writeret == 0) && (wrotelen == 0) then writeret else pos wrotelen

  abbrev pub finish : Option ((ℕ × ℤ) × S) → Option (ℤ × S)
  finish none = none
  finish (some (r, s)) = some (written r, s)

  -- `write` from its first call of the system on.
  unfoldable pub write_all : (fuel timeout nbyte : ℕ) → S → Option (ℤ × S)
  unfolding write_loop
  write_all fuel timeout nbyte s =
      let (ret, s') = sys_write 0 nbyte s in
      if is_zero ret
      then some (ret, s')
      else finish (write_loop fuel timeout nbyte (amount ret) ret s')

  -- `write`.
  unfoldable pub write : Bool → ℤ → FdSet → (fuel nbyte : ℕ) → S → Option (ℤ × S)
  unfolding write_all get_file_desc has_nonblock
  write hook fd t fuel nbyte s =
      dispatch hook fd t (some (sys_write 0 nbyte s))
        (λ lp. write_all fuel (timeout_ms lp.wtimeout) nbyte s)

-- `send` is the same over the system's `send` with the call's flags.
unfoldable pub send :
    {S : Type 0} (poll : (timeout : ℕ) → S → ℕ × S) (sys_send : (flags offset len : ℕ) → S → ℤ × S)
    → Bool
    → ℤ
    → FdSet
    → (fuel length flags : ℕ) → S
    → Option (ℤ × S)
unfolding write
send poll sys_send hook fd t fuel length flags s =
    write poll (sys_send flags) hook fd t fuel length s

module _ {S : Type 0} (poll : (timeout : ℕ) → S → ℕ × S) (sys_read : S → ℤ × S) where
  -- The empty loop of `read`, which ends when `poll` answers something else than 0.
  pub poll_loop : (fuel timeout : ℕ) → S → Option S
  poll_loop zero timeout s = none
  poll_loop (suc fuel) timeout s =
      let (ready, s') = poll timeout s in
      let rest = poll_loop fuel timeout s' in if ready == 0 then rest else some s'

  abbrev pub and_read : Option S → Option (ℤ × S)
  and_read none = none
  and_read (some s) = some (sys_read s)

  -- `read` and `recv`, with the system's call on their other arguments.
  unfoldable pub read : Bool → ℤ → FdSet → (fuel : ℕ) → S → Option (ℤ × S)
  unfolding poll_loop get_file_desc has_nonblock
  read hook fd t fuel s =
      dispatch hook fd t (some (sys_read s))
        (λ lp. and_read (poll_loop fuel (timeout_ms lp.rtimeout) s))

-- `recv` is the same over the system's `recv` on its other arguments.
unfoldable pub recv :
    {S : Type 0} (poll : (timeout : ℕ) → S → ℕ × S) (sys_recv : S → ℤ × S)
    → Bool
    → ℤ
    → FdSet
    → (fuel : ℕ) → S
    → Option (ℤ × S)
unfolding read
recv poll sys_recv hook fd t fuel s = read poll sys_recv hook fd t fuel s
