-- ===== src/Hooks.antt =====
-- The hooked system calls of src/b_hook.cc: the table of descriptors, and the calls that set it up
-- and read it. The system's own calls are arguments, on a state `K` of the kernel. An `int` that a
-- call returns is a whole number; flags and addresses are natural numbers.
pub mod Calls
pub mod Flags
pub mod Lookup
pub mod Table
pub mod Waits
mod Examples
use b_routine.Base.{
  ℕ, zero, suc, ◌+◌, ◌-◌, ◌*◌, ◌/◌, ◌%◌, ◌^◌, Bool, true, false, not, ◌&&◌, ◌||◌, Option, none,
  some, ◌==◌, ltb, if◌then◌else◌,
}

pub data ℤ : Type 0 where
  pos : ℕ → ℤ
  negsuc : ℕ → ℤ

-- `HookContralFdNums`, and `HookContralFdTimeout_S` with its kin, of src/b_common.h.
abbrev pub fd_nums : ℕ
fd_nums = 102400

-- `struct timeval`.
pub record Timeval : Type 0 where
  pub sec : ℕ
  pub usec : ℕ

abbrev pub default_timeout : Timeval
default_timeout = record { sec = 1; usec = 0 }

-- `struct fileDesc`, but for the address, which is only ever stored.
pub record FileDesc : Type 0 where
  pub user_flags : ℕ
  pub domain : ℤ
  pub rtimeout : Timeval
  pub wtimeout : Timeval

-- `hooksFdSet`; `none` is the null pointer.
abbrev pub FdSet : Type 0
FdSet = ℕ → Option FileDesc

abbrev pub put : FdSet → ℕ → Option FileDesc → FdSet
put t fd v a = if a == fd then v else t a

-- `isEnableHook`, with the flags of the routine that runs.
unfoldable pub is_enable_hook : (is_progress is_main is_enable : Bool) → Bool
is_enable_hook is_progress is_main is_enable =
    if is_progress && not is_main then false else is_enable

abbrev pub new_file_desc : FileDesc
new_file_desc = record {
  user_flags = 0;
  domain = negsuc 0;
  rtimeout = default_timeout;
  wtimeout = default_timeout;
}

-- `allocFileDesc`; `none` is a write outside the table, which it does not test for.
pub alloc_file_desc : ℕ → FdSet → Option FdSet
alloc_file_desc fd t = if ltb fd fd_nums then some (put t fd (some new_file_desc)) else none

-- `getFileDesc`.
unfoldable pub get_file_desc : ℤ → FdSet → Option FileDesc
get_file_desc (negsuc n) t = none
get_file_desc (pos fd) t = if ltb fd fd_nums then t fd else none

-- `freeFileDesc`.
pub free_file_desc : ℤ → FdSet → FdSet
free_file_desc (negsuc n) t = t
free_file_desc (pos fd) t = if ltb fd fd_nums then put t fd none else t

-- The bit `O_NONBLOCK`, 04000: a test, `| O_NONBLOCK` and `& ~O_NONBLOCK`. A negative number has the
-- bits of its complement.
unfoldable pub has_nonblock : ℕ → Bool
has_nonblock f = (f / 2048) % 2 == 1

unfoldable pub with_nonblock : ℕ → ℕ
unfolding has_nonblock
with_nonblock f = if has_nonblock f then f else f + 2048

unfoldable pub without_nonblock : ℤ → ℤ
unfolding has_nonblock with_nonblock
without_nonblock (pos f) = if has_nonblock f then pos (f - 2048) else pos f
without_nonblock (negsuc n) = negsuc (with_nonblock n)

-- The commands of `fcntl` with their arguments.
pub data Command : Type 0 where
  f_dupfd : ℕ → Command
  f_getfd : Command
  f_setfd : ℕ → Command
  f_getfl : Command
  f_setfl : ℕ → Command
  f_getown : Command
  f_setown : ℕ → Command
  f_getlk : ℕ → Command
  f_setlk : ℕ → Command
  f_setlkw : ℕ → Command
  other : ℕ → Command

abbrev pub set_user_flags : ℤ → ℕ → FdSet → FdSet
set_user_flags (negsuc n) param t = t
set_user_flags (pos fd) param t = elim (t fd) [
  | none ↦ t
  | some lp ↦ put t fd (some (record lp { user_flags = param }))
]

abbrev pub is_zero : ℤ → Bool
is_zero (pos n) = n == 0
is_zero (negsuc n) = false

abbrev pub is_some : Option FileDesc → Bool
is_some none = false
is_some (some lp) = true

abbrev pub wants_block : Option FileDesc → Bool
wants_block none = false
wants_block (some lp) = not (has_nonblock lp.user_flags)

module _ {K : Type 0} (sys_fcntl : ℤ → Command → K → ℤ × K) where
  -- `fcntl`, with what `isEnableHook` answers. It returns its own line number for a negative
  -- descriptor.
  unfoldable pub fcntl : Bool → ℤ → Command → FdSet → K → ℤ × FdSet × K
  unfolding get_file_desc without_nonblock with_nonblock
  fcntl hook (negsuc n) cmd t k = (pos 357, t, k)
  fcntl hook (pos fd) f_getfl t k =
      let (ret, k') = sys_fcntl (pos fd) f_getfl k in
      (if wants_block (get_file_desc (pos fd) t) then without_nonblock ret else ret, t, k')
  fcntl hook (pos fd) (f_setfl param) t k =
      let lp = is_some (get_file_desc (pos fd) t) in
      let flag = if hook && lp then with_nonblock param else param in
      let (ret, k') = sys_fcntl (pos fd) (f_setfl flag) k in
      (ret, if is_zero ret && lp then set_user_flags (pos fd) param t else t, k')
  fcntl hook (pos fd) (other n) t k = (negsuc 0, t, k)
  fcntl hook (pos fd) (f_dupfd p) t k =
      let (ret, k') = sys_fcntl (pos fd) (f_dupfd p) k in (ret, t, k')
  fcntl hook (pos fd) f_getfd t k = let (ret, k') = sys_fcntl (pos fd) f_getfd k in (ret, t, k')
  fcntl hook (pos fd) (f_setfd p) t k =
      let (ret, k') = sys_fcntl (pos fd) (f_setfd p) k in (ret, t, k')
  fcntl hook (pos fd) f_getown t k = let (ret, k') = sys_fcntl (pos fd) f_getown k in (ret, t, k')
  fcntl hook (pos fd) (f_setown p) t k =
      let (ret, k') = sys_fcntl (pos fd) (f_setown p) k in (ret, t, k')
  fcntl hook (pos fd) (f_getlk p) t k =
      let (ret, k') = sys_fcntl (pos fd) (f_getlk p) k in (ret, t, k')
  fcntl hook (pos fd) (f_setlk p) t k =
      let (ret, k') = sys_fcntl (pos fd) (f_setlk p) k in (ret, t, k')
  fcntl hook (pos fd) (f_setlkw p) t k =
      let (ret, k') = sys_fcntl (pos fd) (f_setlkw p) k in (ret, t, k')
