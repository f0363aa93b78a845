-- ===== src/Hooks/Calls/Direct.antt =====
-- Where the hooks of src/b_hook.cc do nothing.
use b_routine.Base.{ℕ, ◌≡◌, refl, ◌⊎◌, inl, inr, Bool, true, false, none, some}
use b_routine.Hooks.{ℤ, FileDesc, FdSet, get_file_desc, has_nonblock}
use b_routine.Hooks.Waits.{dispatch, write, send, read, recv}
use b_routine.Hooks.Calls.{Answer, sendto, recvfrom, connect, connect_registered}

-- The hooks are off, the descriptor is not registered, or the program set it to `O_NONBLOCK`.
abbrev pub IsDirect : Bool → ℤ → FdSet → Type 0
IsDirect hook fd t =
    (hook ≡ false)
    ⊎ ((get_file_desc fd t ≡ none)
        ⊎ ((lp : FileDesc) × (get_file_desc fd t ≡ some lp) × (has_nonblock lp.user_flags ≡ true)))

dispatch-direct :
    {A : Type 0} (hook : Bool) (fd : ℤ) (t : FdSet) (direct : A) (waiting : FileDesc → A)
    → IsDirect hook fd t
    → dispatch hook fd t direct waiting ≡ direct
dispatch-direct hook fd t direct waiting (inl off) = rw off refl
dispatch-direct true fd t direct waiting (inr (inl e)) = rw e refl
dispatch-direct false fd t direct waiting (inr (inl e)) = refl
dispatch-direct true fd t direct waiting (inr (inr (lp, e, n))) = rw (e, n) refl
dispatch-direct false fd t direct waiting (inr (inr p)) = refl

connect-direct :
    {S : Type 0} (hook : Bool) (fd : ℤ) (t : FdSet) (s : S) (poll : ℕ → S → (ℕ × ℕ) × S)
    (sys_call : S → Answer × S) (sys_getsockopt : S → (ℤ × ℕ) × S)
    → IsDirect hook fd t
    → connect poll sys_call sys_getsockopt hook fd t s ≡ sys_call s
unfolding connect connect_registered
connect-direct hook fd t s poll sys_call sys_getsockopt (inl off) = rw off refl
connect-direct true fd t s poll sys_call sys_getsockopt (inr (inl e)) = rw e refl
connect-direct false fd t s poll sys_call sys_getsockopt (inr d) = refl
connect-direct true fd t s poll sys_call sys_getsockopt (inr (inr (lp, e, n))) = rw (e, n) refl

-- For a program that has turned the hooks off, for a descriptor that is not registered and for one
-- that it set to `O_NONBLOCK`, `write`, `send`, `read`, `recv`, `sendto`, `recvfrom` and `connect` are one
-- call of the system each, in the state that the program calls them in, and answer what it answers;
-- `poll` is not called. `write` and `send` are for the whole buffer, and `send` is with the program's
-- flags.
pub transfers-direct :
    {S : Type 0} (hook : Bool) (fd : ℤ) (t : FdSet) (fuel n flags : ℕ) (s : S)
    (poll : ℕ → S → ℕ × S) (poll_one : ℕ → S → (ℕ × ℕ) × S) (sys_write : ℕ → ℕ → S → ℤ × S)
    (sys_send : ℕ → ℕ → ℕ → S → ℤ × S) (sys_read : S → ℤ × S) (sys_recv : S → ℤ × S)
    (sys_call : S → Answer × S) (sys_getsockopt : S → (ℤ × ℕ) × S)
    → IsDirect hook fd t
    → (write poll sys_write hook fd t fuel n s ≡ some (sys_write 0 n s))
      × (send poll sys_send hook fd t fuel n flags s ≡ some (sys_send flags 0 n s))
      × (read poll sys_read hook fd t fuel s ≡ some (sys_read s))
      × (recv poll sys_recv hook fd t fuel s ≡ some (sys_recv s))
      × (sendto poll_one sys_call sys_getsockopt hook fd t s ≡ sys_call s)
      × (recvfrom poll_one sys_call sys_getsockopt hook fd t s ≡ sys_call s)
      × (connect poll_one sys_call sys_getsockopt hook fd t s ≡ sys_call s)
unfolding write send read recv sendto recvfrom connect
transfers-direct hook fd t fuel n flags s poll poll_one sys_write sys_send sys_read sys_recv
      sys_call sys_getsockopt d =
    (
      dispatch-direct hook fd t _ _ d,
      dispatch-direct hook fd t _ _ d,
      dispatch-direct hook fd t _ _ d,
      dispatch-direct hook fd t _ _ d,
      dispatch-direct hook fd t _ _ d,
      dispatch-direct hook fd t _ _ d,
      connect-direct hook fd t s poll_one sys_call sys_getsockopt d,
    )
