-- ===== src/Hooks/Calls/Bounds.antt =====
-- How often, and for how long, a hooked `connect` of src/b_hook.cc polls.
use b_routine.Base.{
  ℕ, zero, suc, ◌+◌, ◌*◌, ◌≤◌, ◌≡◌, ◌≢◌, ◌⊎◌, refl, sym, subst, ◌∙◌, inl, inr, Bool, true, false,
  Bool-cases, not, ◌||◌, ◌&&◌, some, List, [], ◌∷◌, ◌++◌, append_assoc, append-nil, arith, ◌==◌,
}
use b_routine.Hooks.{ℤ, FileDesc, FdSet, get_file_desc, has_nonblock}
use b_routine.Hooks.Calls.{
  Answer, is_negative, einprogress, connect_loop, connect_checked, connect_registered, connect,
}

-- A call of `poll`: the timeout that it is given, and what it returns.
abbrev pub Call : Type 0
Call = ℕ × ℕ

-- The calls of `poll` are kept beside the state, in order.
abbrev pub Noting : Type 0 → Type 0
Noting S = S × List Call

module _ {S : Type 0} where
  abbrev pub noting_poll : (ℕ → S → (ℕ × ℕ) × S) → ℕ → Noting S → (ℕ × ℕ) × Noting S
  noting_poll poll ms (s, l) = ((poll ms s).0, ((poll ms s).1, l ++ (ms, (poll ms s).0.0) ∷ []))

  abbrev pub keeping : {A : Type 0} → (S → A × S) → Noting S → A × Noting S
  keeping call (s, l) = ((call s).0, ((call s).1, l))

-- At most `rounds` polls of 25 seconds, up to the first that returns 1, and fewer only where one does.
abbrev pub IsPolled : (rounds : ℕ) → List Call → Type 0
IsPolled zero [] = Unit {0}
IsPolled zero (c ∷ cs) = ⊥
IsPolled (suc rounds) [] = ⊥
IsPolled (suc rounds) ((ms, ret) ∷ cs) =
    (ms ≡ 25000) × (((ret ≡ 1) × (cs ≡ [])) ⊎ ((ret ≢ 1) × IsPolled rounds cs))

abbrev pub total : List Call → ℕ
total [] = 0
total ((ms, ret) ∷ cs) = ms + total cs

IsPolled-total : (rounds : ℕ) (cs : List Call) → IsPolled rounds cs → total cs ≤ rounds * 25000
IsPolled-total zero [] p = omega arith
IsPolled-total zero (c ∷ cs) p = absurd p
IsPolled-total (suc rounds) [] p = absurd p
IsPolled-total (suc rounds) ((ms, ret) ∷ cs) (e, inl (r, z)) = rw (e, z) (omega arith)
IsPolled-total (suc rounds) ((ms, ret) ∷ cs) (e, inr (r, p)) =
    omega (arith, e, IsPolled-total rounds cs p)

module _ {S : Type 0} (poll : ℕ → S → (ℕ × ℕ) × S) (sys_call : S → Answer × S)
    (sys_getsockopt : S → (ℤ × ℕ) × S) where
  connect_loop-IsPolled :
      (rounds revents : ℕ) (s : S) (l : List Call)
      → (cs : List Call) × IsPolled rounds cs
        × ((connect_loop
              (noting_poll poll)
              (keeping sys_call)
              (keeping sys_getsockopt)
              rounds
              revents
              (s, l)).1.1
            ≡ l ++ cs)
  unfolding connect_loop
  connect_loop-IsPolled zero revents s l = ([], tt, sym (append-nil l))
  connect_loop-IsPolled (suc rounds) revents s l =
      let ret = (poll 25000 s).0.0 in
      let (cs, p, e) =
        connect_loop-IsPolled rounds (poll 25000 s).0.1 (poll 25000 s).1 (l ++ (25000, ret) ∷ []) in
      elim (Bool-cases (ret == 1)) [
        | inl one ↦ ((25000, ret) ∷ [], (refl, inl (ground arith, refl)), rw one refl)
        | inr other ↦ (
          (25000, ret) ∷ cs,
          (refl, inr (ground arith, p)),
          rw other (e ∙ append_assoc l ((25000, ret) ∷ []) cs),
        )
      ]

  connect_checked-log :
      (ret : ℤ) (revents : ℕ) (s : S) (l : List Call)
      → (connect_checked
          (noting_poll poll)
          (keeping sys_call)
          (keeping sys_getsockopt)
          ret
          (revents, (s, l))).1.1
        ≡ l
  unfolding connect_checked
  connect_checked-log ret revents s l = ground arith

  connect_registered-IsPolled :
      (lp : FileDesc) (first : Answer) (s : S)
      → (has_nonblock lp.user_flags || not (is_negative first.ret && first.errno == einprogress))
        ≡ false
      → IsPolled 3
          (connect_registered
            (noting_poll poll)
            (keeping sys_call)
            (keeping sys_getsockopt)
            lp
            (first, (s, []))).1.1
  unfolding connect_registered
  connect_registered-IsPolled lp first s waits =
      let (found, (s', log)) =
        connect_loop (noting_poll poll) (keeping sys_call) (keeping sys_getsockopt) 3 0 (s, []) in
      let (cs, p, e) = connect_loop-IsPolled 3 0 s [] in
      rw (waits, connect_checked-log first.ret found s' log, e) p

  -- The log of a `connect` on a state `s`.
  abbrev pub connect_log : Bool → ℤ → FdSet → S → List Call
  connect_log hook fd t s =
      (connect (noting_poll poll) (keeping sys_call) (keeping sys_getsockopt) hook fd t (s, [])).1.1

  -- A hooked `connect` on a registered blocking descriptor whose connection the system reports as in
  -- progress polls in steps of 25 seconds, three times at most: it stops at the first poll that returns
  -- 1, and before the third only then. So it asks for 75 seconds at most, whatever `poll` does.
  pub connect_bound :
      (fd : ℤ) (t : FdSet) (lp : FileDesc) (s : S)
      → get_file_desc fd t ≡ some lp
      → has_nonblock lp.user_flags ≡ false
      → is_negative (sys_call s).0.ret ≡ true
      → (sys_call s).0.errno ≡ einprogress
      → IsPolled 3 (connect_log true fd t s) × (total (connect_log true fd t s) ≤ 75000)
  unfolding connect connect_registered
  connect_bound fd t lp s found blocking failed progress =
      let first = (sys_call s).0 in
      let waits : (has_nonblock lp.user_flags
            || not (is_negative first.ret && first.errno == einprogress))
          ≡ false =
        ground arith in
      let run : connect (noting_poll poll) (keeping sys_call) (keeping sys_getsockopt) true fd t
            (s, [])
          ≡ connect_registered (noting_poll poll) (keeping sys_call) (keeping sys_getsockopt) lp
              (first, ((sys_call s).1, [])) =
        rw found refl in
      let p : IsPolled 3 (connect_log true fd t s) =
        subst (λ z. IsPolled 3 z.1.1) (sym run)
          (connect_registered-IsPolled lp first (sys_call s).1 waits) in
      (p, IsPolled-total 3 (connect_log true fd t s) p)
