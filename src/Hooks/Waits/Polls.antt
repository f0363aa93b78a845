-- ===== src/Hooks/Waits/Polls.antt =====
-- How long the hooked `read` and `recv` of src/b_hook.cc wait.
use b_routine.Base.{ℕ, zero, suc, ◌<◌, ◌≡◌, ◌≢◌, refl, true, false, none, some, arith}
use b_routine.Hooks.{ℤ, FileDesc, FdSet, get_file_desc, has_nonblock}
use b_routine.Hooks.Waits.{timeout_ms, poll_loop, read}

module _ {S : Type 0} (poll : (timeout : ℕ) → S → ℕ × S) (sys_read : S → ℤ × S) where
  -- The state after `n` polls.
  abbrev pub polled : (timeout n : ℕ) → S → S
  polled timeout zero s = s
  polled timeout (suc n) s = polled timeout n (poll timeout s).1

  poll_loop-runs :
      (n fuel timeout : ℕ) (s : S)
      → n < fuel
      → ((j : ℕ) → j < n → (poll timeout (polled timeout j s)).0 ≡ 0)
      → (poll timeout (polled timeout n s)).0 ≢ 0
      → poll_loop poll sys_read fuel timeout s ≡ some (poll timeout (polled timeout n s)).1
  unfolding poll_loop
  poll_loop-runs zero zero timeout s h z e = absurd (omega arith)
  poll_loop-runs (suc n) zero timeout s h z e = absurd (omega arith)
  poll_loop-runs zero (suc fuel) timeout s h z e = ground arith
  poll_loop-runs (suc n) (suc fuel) timeout s h z e =
      let first : (poll timeout s).0 ≡ 0 = z 0 (omega arith) in
      rw first (
        poll_loop-runs n fuel timeout (poll timeout s).1 (omega arith)
          (λ j k. z (suc j) (omega arith)) e)

  poll_loop-silent :
      (fuel timeout : ℕ) (s : S)
      → ((j : ℕ) → (poll timeout (polled timeout j s)).0 ≡ 0)
      → poll_loop poll sys_read fuel timeout s ≡ none
  unfolding poll_loop
  poll_loop-silent zero timeout s z = refl
  poll_loop-silent (suc fuel) timeout s z =
      rw (z 0) (poll_loop-silent fuel timeout (poll timeout s).1 (λ j. z (suc j)))

  -- On a registered descriptor that the program did not set to `O_NONBLOCK`, hooks on, a `read` polls
  -- with the receive timeout until a poll answers something else than 0, and then calls the system
  -- once; where each poll times out it never returns, so the receive timeout does not end it.
  pub read-polled :
      (fd : ℤ) (t : FdSet) (lp : FileDesc) (s : S)
      → get_file_desc fd t ≡ some lp
      → has_nonblock lp.user_flags ≡ false
      → let timeout = timeout_ms lp.rtimeout in
        ((n fuel : ℕ)
          → n < fuel
          → ((j : ℕ) → j < n → (poll timeout (polled timeout j s)).0 ≡ 0)
          → (poll timeout (polled timeout n s)).0 ≢ 0
          → read poll sys_read true fd t fuel s
            ≡ some (sys_read (poll timeout (polled timeout n s)).1))
        × (((j : ℕ) → (poll timeout (polled timeout j s)).0 ≡ 0)
            → (fuel : ℕ) → read poll sys_read true fd t fuel s ≡ none)
  unfolding read
  read-polled fd t lp s e b = (
    λ n fuel h z o. rw (e, b, poll_loop-runs n fuel (timeout_ms lp.rtimeout) s h z o) refl,
    λ z fuel. rw (e, b, poll_loop-silent fuel (timeout_ms lp.rtimeout) s z) refl,
  )
