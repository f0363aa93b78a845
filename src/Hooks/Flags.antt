-- ===== src/Hooks/Flags.antt =====
-- What a program sees of the flags of a descriptor behind the hooked `fcntl` (src/b_hook.cc).
use b_routine.Base.{ℕ, ◌<◌, ◌≡◌, Bool, true, false, some, arith, Bool-cases, inl, inr}
use b_routine.Hooks.{
  ℤ, pos, negsuc, fd_nums, FileDesc, FdSet, put, get_file_desc, has_nonblock, with_nonblock,
  without_nonblock, Command, f_getfl, f_setfl, fcntl,
}

has-with : (f : ℕ) → has_nonblock (with_nonblock f) ≡ true
unfolding has_nonblock with_nonblock
has-with f = ground arith

without-with : (f : ℕ) → has_nonblock f ≡ false → without_nonblock (pos (with_nonblock f)) ≡ pos f
unfolding has_nonblock with_nonblock without_nonblock
without-with f h = ground arith

with-same : (f : ℕ) → has_nonblock f ≡ true → with_nonblock f ≡ f
unfolding with_nonblock
with-same f h = rw h

module _ {K : Type 0} (sys_fcntl : ℤ → Command → K → ℤ × K) (fd : ℕ) (t : FdSet)
    (lp : FileDesc) where
  -- For a registered descriptor, hooks on: where the system accepts the flags with `O_NONBLOCK` added
  -- and reports them back, a hooked `F_SETFL` and then a hooked `F_GETFL` give the program the flags
  -- that it set, whether or not `O_NONBLOCK` is among them, while the system's descriptor does not
  -- block in either case.
  pub fcntl-flags :
      (f : ℕ) (k k' : K)
      → fd < fd_nums
      → t fd ≡ some lp
      → sys_fcntl (pos fd) (f_setfl (with_nonblock f)) k ≡ (pos 0, k')
      → sys_fcntl (pos fd) f_getfl k' ≡ (pos (with_nonblock f), k')
      → let t' = put t fd (some (record lp { user_flags = f })) in
        (fcntl sys_fcntl true (pos fd) (f_setfl f) t k ≡ (pos 0, t', k'))
        × (fcntl sys_fcntl true (pos fd) f_getfl t' k' ≡ (pos f, t', k'))
        × (has_nonblock (with_nonblock f) ≡ true)
  unfolding fcntl get_file_desc
  fcntl-flags f k k' small e set get = (
    ground arith,
    elim (Bool-cases (has_nonblock f)) [
      | inl h ↦ let same : with_nonblock f ≡ f = with-same f h in ground (arith, same)
      | inr h ↦ let back = without-with f h in ground (arith, back)
    ],
    has-with f,
  )

  -- Where the system's `F_GETFL` fails with -1 on a registered descriptor that the program did not
  -- set to `O_NONBLOCK`, the hooked one returns -2049.
  pub fcntl-failed :
      (hook : Bool) (k k' : K)
      → fd < fd_nums
      → t fd ≡ some lp
      → has_nonblock lp.user_flags ≡ false
      → sys_fcntl (pos fd) f_getfl k ≡ (negsuc 0, k')
      → fcntl sys_fcntl hook (pos fd) f_getfl t k ≡ (negsuc 2048, t, k')
  unfolding fcntl get_file_desc without_nonblock with_nonblock
  fcntl-failed hook k k' small e f get = ground arith
