-- ===== src/Hooks/Waits/Written.antt =====
-- What the hooked `write` and `send` of src/b_hook.cc hand to the system.
use b_routine.Base.{
  ℕ, zero, suc, ◌+◌, ◌-◌, ◌≤◌, ◌<◌, ◌≡◌, refl, sym, ap, ◌∙◌, inl, inr, Bool, true, false, List, [],
  ◌∷◌, ◌++◌, append_assoc, append-nil, Option, none, some, arith, Bool-cases, ltb, if◌then◌else◌,
}
use b_routine.Hooks.{ℤ, pos, negsuc, is_zero, FdSet, get_file_desc, has_nonblock}
use b_routine.Hooks.Waits.{timeout_ms, amount, write_loop, written, finish, write_all, write}

-- The `n` bytes of a buffer from `i` on.
abbrev pub slice : (ℕ → ℕ) → ℕ → ℕ → List ℕ
slice b i zero = []
slice b i (suc n) = b i ∷ slice b (i + 1) n

slice-append : (b : ℕ → ℕ) (i m n : ℕ) → slice b i (m + n) ≡ slice b i m ++ slice b (i + m) n
slice-append b i zero n =
    let whole : 0 + n ≡ n = omega arith in
    let start : i ≡ i + 0 = omega arith in ap (λ k. slice b i k) whole ∙ ap (λ k. slice b k n) start
slice-append b i (suc m) n =
    let whole : suc m + n ≡ suc (m + n) = omega arith in
    let start : i + 1 + m ≡ i + suc m = omega arith in
    ap (λ k. slice b i k) whole
    ∙ ap (λ l. b i ∷ l)
        (slice-append b (i + 1) m n ∙ ap (λ k. slice b (i + 1) m ++ slice b k n) start)

slice-append_zero : (b : ℕ → ℕ) (m n : ℕ) → slice b 0 (m + n) ≡ slice b 0 m ++ slice b m n
slice-append_zero b m n =
    let start : 0 + m ≡ m = omega arith in
    slice-append b 0 m n ∙ ap (λ k. slice b 0 m ++ slice b k n) start

module _ {S : Type 0} (poll : (timeout : ℕ) → S → ℕ × S) (sys_write : (offset len : ℕ) → S → ℤ × S)
    (buffer : ℕ → ℕ) (sent : S → List ℕ) (silent : (n : ℕ) (s : S) → sent (poll n s).1 ≡ sent s)
    (accepts : (offset len : ℕ) (s : S)
      → (amount (sys_write offset len s).0 ≤ len)
        × (sent (sys_write offset len s).1
            ≡ sent s ++ slice buffer offset (amount (sys_write offset len s).0))) where
  abbrev Runs : (nbyte wrotelen : ℕ) → S → Option ((ℕ × ℤ) × S) → Type 0
  Runs nbyte wrotelen s r =
      (n : ℕ) × (last : ℤ) × (s' : S) × (r ≡ some ((wrotelen + n, last), s'))
      × (wrotelen + n ≤ nbyte)
      × (sent s' ≡ sent s ++ slice buffer wrotelen n)

  write_loop-Runs :
      (fuel timeout nbyte wrotelen : ℕ) (writeret : ℤ) (s : S)
      → wrotelen ≤ nbyte
      → nbyte - wrotelen < fuel
      → Runs nbyte wrotelen s (write_loop poll sys_write fuel timeout nbyte wrotelen writeret s)
  unfolding write_loop
  write_loop-Runs zero timeout nbyte wrotelen writeret s h f = absurd (omega arith)
  write_loop-Runs (suc fuel) timeout nbyte wrotelen writeret s h f =
      let s1 = (poll timeout s).1 in
      let ret = (sys_write wrotelen (nbyte - wrotelen) s1).0 in
      let s2 = (sys_write wrotelen (nbyte - wrotelen) s1).1 in
      let (small, taken) = accepts wrotelen (nbyte - wrotelen) s1 in
      let quiet = silent timeout s in
      let stay : wrotelen ≡ wrotelen + 0 = omega arith in
      elim (Bool-cases (ltb wrotelen nbyte)) [
        | inr done ↦ (
          0,
          writeret,
          s,
          rw done (ap (λ k. some ((k, writeret), s)) stay),
          omega arith,
          sym (append-nil (sent s)),
        )
        | inl more ↦ elim (Bool-cases (ltb 0 (amount ret))) [
          | inr stuck ↦
              let nothing : amount ret ≡ 0 = ground arith in
              (
                0,
                ret,
                s2,
                rw (more, stuck) (ap (λ k. some ((k, ret), s2)) stay),
                omega arith,
                taken
                    ∙ ap (λ k. sent s1 ++ slice buffer wrotelen k) nothing
                    ∙ ap (λ l. l ++ []) quiet,
              )
          | inl some_more ↦
              let progress : 0 < amount ret = ground arith in
              let (n, last, s', e, le, q) =
                write_loop-Runs fuel timeout nbyte (wrotelen + amount ret) ret s2 (omega arith)
                  (omega arith) in
              let whole : wrotelen + amount ret + n ≡ wrotelen + (amount ret + n) = omega arith in
              (
                amount ret + n,
                last,
                s',
                rw (more, some_more) (e ∙ ap (λ k. some ((k, last), s')) whole),
                omega arith,
                q
                    ∙ ap (λ l. l ++ slice buffer (wrotelen + amount ret) n)
                        (taken ∙ ap (λ l. l ++ slice buffer wrotelen (amount ret)) quiet)
                    ∙ append_assoc (sent s) (slice buffer wrotelen (amount ret))
                        (slice buffer (wrotelen + amount ret) n)
                    ∙ ap (λ l. sent s ++ l) (sym (slice-append buffer wrotelen (amount ret) n)),
              )
        ]
      ]

  abbrev Writes : (nbyte : ℕ) → S → Option (ℤ × S) → Type 0
  Writes nbyte s r =
      (ret : ℤ) × (s' : S) × (r ≡ some (ret, s'))
      × (amount ret ≤ nbyte)
      × (sent s' ≡ sent s ++ slice buffer 0 (amount ret))

  amount-written : (n : ℕ) (last : ℤ) → amount (written poll sys_write (n, last)) ≡ n
  amount-written n (pos m) = ground arith
  amount-written n (negsuc m) = ground arith

  write_all-Writes :
      (fuel timeout nbyte : ℕ) (s : S)
      → nbyte < fuel
      → Writes nbyte s (write_all poll sys_write fuel timeout nbyte s)
  unfolding write_all
  write_all-Writes fuel timeout nbyte s enough =
      let ret = (sys_write 0 nbyte s).0 in
      let s1 = (sys_write 0 nbyte s).1 in
      let (small, taken) = accepts 0 nbyte s in
      elim (Bool-cases (is_zero ret)) [
        | inl z ↦ (ret, s1, rw z refl, small, taken)
        | inr nz ↦
            let (n, last, s', e, le, q) =
              write_loop-Runs fuel timeout nbyte (amount ret) ret s1 small (omega arith) in
            let counted = amount-written (amount ret + n) last in
            (
              written poll sys_write (amount ret + n, last),
              s',
              rw nz (ap (finish poll sys_write) e),
              omega (arith, counted),
              q
                  ∙ ap (λ l. l ++ slice buffer (amount ret) n) taken
                  ∙ append_assoc (sent s) (slice buffer 0 (amount ret))
                      (slice buffer (amount ret) n)
                  ∙ ap (λ l. sent s ++ l) (sym (slice-append_zero buffer (amount ret) n))
                  ∙ ap (λ k. sent s ++ slice buffer 0 k) (sym counted),
            )
      ]

  -- Where the system takes a prefix of what it is offered, or nothing where it fails, and `poll` takes
  -- nothing, a hooked `write` ends on any fuel above the length, whatever the hooks and the descriptor
  -- are, and the system has then taken the buffer's first bytes, as many as `write` returns, in order,
  -- without a gap or a repeat; a failure is returned only where it has taken none.
  pub write-sent :
      (hook : Bool) (fd : ℤ) (t : FdSet) (fuel nbyte : ℕ) (s : S)
      → nbyte < fuel
      → (ret : ℤ) × (s' : S) × (write poll sys_write hook fd t fuel nbyte s ≡ some (ret, s'))
        × (amount ret ≤ nbyte)
        × (sent s' ≡ sent s ++ slice buffer 0 (amount ret))
  unfolding write
  write-sent hook fd t fuel nbyte s enough =
      let direct : Writes nbyte s (some (sys_write 0 nbyte s)) = (
        (sys_write 0 nbyte s).0,
        (sys_write 0 nbyte s).1,
        refl,
        (accepts 0 nbyte s).0,
        (accepts 0 nbyte s).1,
      ) in
      elim (Bool-cases hook) [
        | inr off ↦ rw off direct
        | inl on ↦
            rw on
              (elim (get_file_desc fd t)
                as (λ o. Writes nbyte s (elim o [
                  | none ↦ some (sys_write 0 nbyte s)
                  | some lp ↦
                      if has_nonblock lp.user_flags
                      then some (sys_write 0 nbyte s)
                      else write_all poll sys_write fuel (timeout_ms lp.wtimeout) nbyte s
                ])) [
                  | none ↦ direct
                  | some lp ↦
                      elim (has_nonblock lp.user_flags)
                        as (λ b. Writes nbyte s (
                          if b
                          then some (sys_write 0 nbyte s)
                          else write_all poll sys_write fuel (timeout_ms lp.wtimeout) nbyte s)) [
                            | true ↦ direct
                            | false ↦ write_all-Writes fuel (timeout_ms lp.wtimeout) nbyte s enough
                          ]
                ])
      ]
