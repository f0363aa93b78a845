-- ===== src/Hooks/Examples.antt =====
-- Tests of the hooked calls of src/b_hook.cc on a small kernel, whose state is the flags of its one
-- descriptor, and on a system that takes two bytes at a time.
use b_routine.Base.{
  ℕ, zero, suc, ◌+◌, ◌≤◌, ◌<◌, ◌≡◌, refl, inl, inr, true, false, List, [], ◌∷◌, ◌++◌, Option, none,
  some, arith, Bool-cases, ◌==◌, ltb, if◌then◌else◌,
}
use b_routine.Hooks.Lookup.{HookTable, enable_hook, do_hooks, do_hook, all_found}
use b_routine.Hooks.{
  ℤ, pos, negsuc, FileDesc, FdSet, put, new_file_desc, Timeval, Command, f_dupfd, f_getfd, f_setfd,
  f_getfl, f_setfl, f_getown, f_setown, f_getlk, f_setlk, f_setlkw, other, fcntl, get_file_desc,
  has_nonblock, with_nonblock, is_enable_hook,
}
use b_routine.Hooks.Flags.{fcntl-flags}
use b_routine.Hooks.Table.{
  Level, OptionName, sol_socket, so_rcvtimeo, socket, accept, close, setsockopt,
  socket-accept-close,
}
use b_routine.Hooks.Waits.{recv, amount, write_loop, write_all, write, send, read}
use b_routine.Hooks.Calls.{
  etimedout, Answer, eagain, einprogress, sendto_waiting, sendto, recvfrom, connect_loop,
  connect_checked, connect_registered, connect,
}
use b_routine.Hooks.Calls.Bounds.{connect_bound, connect_log, IsPolled, total}
use b_routine.Hooks.Calls.Direct.{transfers-direct}
use b_routine.Hooks.Waits.Written.{slice, write-sent}
use b_routine.Hooks.Waits.Polls.{polled}

abbrev sys_fcntl : ℤ → Command → ℕ → ℤ × ℕ
sys_fcntl fd cmd flags = elim cmd as (λ c. ℤ × ℕ) [
  | f_getfl ↦ (pos flags, flags)
  | f_setfl f ↦ (pos 0, f)
  | f_dupfd p ↦ (negsuc 0, flags)
  | f_getfd ↦ (negsuc 0, flags)
  | f_setfd p ↦ (negsuc 0, flags)
  | f_getown ↦ (negsuc 0, flags)
  | f_setown p ↦ (negsuc 0, flags)
  | f_getlk p ↦ (negsuc 0, flags)
  | f_setlk p ↦ (negsuc 0, flags)
  | f_setlkw p ↦ (negsuc 0, flags)
  | other n ↦ (negsuc 0, flags)
]

abbrev registered : FdSet
registered fd = if fd == 5 then some new_file_desc else none

two-with_nonblock : with_nonblock 2 ≡ 2050
unfolding with_nonblock
two-with_nonblock = refl

fcntl-flags_example :
    let t' = put registered 5 (some (record new_file_desc { user_flags = 2 })) in
    (fcntl sys_fcntl true (pos 5) (f_setfl 2) registered 2 ≡ (pos 0, t', with_nonblock 2))
    × (fcntl sys_fcntl true (pos 5) f_getfl t' (with_nonblock 2) ≡ (pos 2, t', with_nonblock 2))
    × (has_nonblock (with_nonblock 2) ≡ true)
fcntl-flags_example =
    fcntl-flags sys_fcntl 5 registered new_file_desc 2 2 (with_nonblock 2) (omega arith) refl refl
      refl

abbrev failing : ℤ → Command → ℕ → ℤ × ℕ
failing fd cmd k = (negsuc 0, k)

abbrev sys_socket : ℤ → ℕ → ℕ → ℕ → ℤ × ℕ
sys_socket domain kind protocol k = (pos 7, 2)

abbrev sys_accept : ℤ → ℕ → ℤ × ℕ
sys_accept fd k = (pos 7, 2)

abbrev sys_close : ℤ → ℕ → ℤ × ℕ
sys_close fd k = (pos 0, 0)

abbrev sys_setsockopt : ℤ → Level → OptionName → Timeval → ℕ → ℤ × ℕ
sys_setsockopt fd level name val k = (pos 0, k)

socket-accept-close_example :
    (u : FdSet) × (socket sys_fcntl sys_socket sys_accept sys_close sys_setsockopt true
        (pos 2)
        1
        0
        registered
        0
      ≡ some (pos 7, u, with_nonblock 2))
    × (get_file_desc (pos 7) u ≡ some (record new_file_desc { user_flags = 2; domain = pos 2 }))
    × (accept sys_fcntl sys_socket sys_accept sys_close sys_setsockopt true (pos 5) registered 0
        ≡ some (pos 7, put registered 7 (some new_file_desc), 2))
    × (get_file_desc
          (pos 7)
          (close sys_fcntl sys_socket sys_accept sys_close sys_setsockopt true
            (pos 7)
            u
            (with_nonblock 2)).1
        ≡ none)
socket-accept-close_example =
    (socket-accept-close sys_fcntl sys_socket sys_accept sys_close sys_setsockopt (pos 2) 1 0 7 2
        (pos 5) registered 0 2 2 (with_nonblock 2) 2 refl refl refl refl).0
      (omega arith)

-- `setsockopt` stores the receive timeout of a registered descriptor.
setsockopt-runs :
    let val : Timeval = record { sec = 3; usec = 0 } in
    Path
      (Option FileDesc)
      (get_file_desc
        (pos 5)
        (setsockopt sys_fcntl sys_socket sys_accept sys_close sys_setsockopt true
          (pos 5)
          sol_socket
          so_rcvtimeo
          val
          registered
          0).1)
      (some (record new_file_desc { rtimeout = val }))
unfolding setsockopt get_file_desc
setsockopt-runs = refl

-- The hooks are off in a scheduler's own routine, unless it is the main one.
is_enable_hook-runs :
    (is_enable_hook true false true ≡ false) × (is_enable_hook true true true ≡ true)
unfolding is_enable_hook
is_enable_hook-runs = (refl, refl)

abbrev bytes : ℕ → ℕ
bytes i = i

abbrev ready : ℕ → List ℕ → ℕ × List ℕ
ready timeout s = (1, s)

abbrev sys_write : (offset len : ℕ) → List ℕ → ℤ × List ℕ
sys_write offset len s =
    if ltb len 2 then (pos len, s ++ slice bytes offset len) else (pos 2, s ++ slice bytes offset 2)

sys_write-accepts :
    (offset len : ℕ) (s : List ℕ)
    → (amount (sys_write offset len s).0 ≤ len)
      × ((sys_write offset len s).1 ≡ s ++ slice bytes offset (amount (sys_write offset len s).0))
sys_write-accepts offset len s = elim (Bool-cases (ltb len 2)) [
  | inl short ↦ (rw short (omega arith), rw short refl)
  | inr long ↦ let enough : 2 ≤ len = ground arith in (rw long enough, rw long refl)
]

write-sent_example :
    (ret : ℤ) × (s' : List ℕ) × (write ready sys_write true (pos 5) registered 6 5 []
      ≡ some (ret, s'))
    × (amount ret ≤ 5)
    × (s' ≡ slice bytes 0 (amount ret))
write-sent_example =
    write-sent ready sys_write bytes (λ s. s) (λ n s. refl) sys_write-accepts true (pos 5)
      registered 6 5 [] (omega arith)

-- Five bytes are written in three calls of the system.
write-runs :
    write ready sys_write true (pos 5) registered 6 5 [] ≡ some (pos 5, 0 ∷ 1 ∷ 2 ∷ 3 ∷ 4 ∷ [])
unfolding write write_all write_loop get_file_desc has_nonblock
write-runs = refl

send-runs :
    send ready (λ flags. sys_write) true (pos 5) registered 6 5 0 []
    ≡ write ready sys_write true (pos 5) registered 6 5 []
unfolding send
send-runs = refl

-- A poll that times out once.
abbrev second_time : ℕ → ℕ → ℕ × ℕ
second_time timeout s = (s, s + 1)

abbrev sys_read : ℕ → ℤ × ℕ
sys_read s = (pos 4, s)

zeros : (j : ℕ) → j < 1 → polled second_time sys_read 1000 j 0 ≡ 0
zeros zero h = refl
zeros (suc j) h = absurd (omega arith)

-- A system that notes each call, newest first.
abbrev noting : ℕ → List ℕ → ℕ × List ℕ
noting timeout s = (1, timeout ∷ s)

abbrev noting_one : ℕ → List ℕ → (ℕ × ℕ) × List ℕ
noting_one timeout s = ((1, 4), timeout ∷ s)

abbrev note_call : ℕ → List ℕ → ℤ × List ℕ
note_call n s = (pos n, n ∷ s)

abbrev note_answer : List ℕ → Answer × List ℕ
note_answer s = (record { ret = negsuc 0; errno = eagain }, eagain ∷ s)

abbrev in_progress : List ℕ → Answer × List ℕ
in_progress s = (record { ret = negsuc 0; errno = einprogress }, einprogress ∷ s)

abbrev no_error : List ℕ → (ℤ × ℕ) × List ℕ
no_error s = ((pos 0, 0), 4 ∷ s)

transfers-direct_example :
    (write noting (λ o n. note_call n) true (pos 6) registered 1 7 [] ≡ some (note_call 7 []))
    × (send noting (λ f o n. note_call f) true (pos 6) registered 1 7 9 [] ≡ some (note_call 9 []))
    × (read noting (note_call 3) true (pos 6) registered 1 [] ≡ some (note_call 3 []))
    × (recv noting (note_call 4) true (pos 6) registered 1 [] ≡ some (note_call 4 []))
    × (sendto noting_one note_answer no_error true (pos 6) registered [] ≡ note_answer [])
    × (recvfrom noting_one note_answer no_error true (pos 6) registered [] ≡ note_answer [])
    × (connect noting_one note_answer no_error true (pos 6) registered [] ≡ note_answer [])
unfolding get_file_desc
transfers-direct_example =
    transfers-direct true (pos 6) registered 1 7 9 [] noting noting_one (λ o n. note_call n)
      (λ f o n. note_call f) (note_call 3) (note_call 4) note_answer no_error (inr (inl refl))

-- On a registered descriptor `sendto` tries again behind a wait, `recvfrom` waits first, and `connect`
-- waits until the descriptor can be written.
registered-waits :
    ((sendto noting_one note_answer no_error true (pos 5) registered []).1
      ≡ eagain ∷ 1000 ∷ eagain ∷ [])
    × ((recvfrom noting_one note_answer no_error true (pos 5) registered []).1 ≡ eagain ∷ 1000 ∷ [])
    × (connect noting_one in_progress no_error true (pos 5) registered []
        ≡ (record { ret = pos 0; errno = 0 }, 4 ∷ 25000 ∷ einprogress ∷ []))
unfolding sendto recvfrom connect connect_registered connect_checked connect_loop sendto_waiting
    get_file_desc has_nonblock
registered-waits = (refl, refl, refl)

-- A `poll` that waits for its timeout and finds nothing, on a system whose state is its clock.
abbrev slow_poll : ℕ → ℕ → (ℕ × ℕ) × ℕ
slow_poll ms s = ((0, 0), s + ms)

abbrev slow_connect : ℕ → Answer × ℕ
slow_connect s = (record { ret = negsuc 0; errno = einprogress }, s)

abbrev slow_getsockopt : ℕ → (ℤ × ℕ) × ℕ
slow_getsockopt s = ((pos 0, 0), s)

connect_bound_example :
    IsPolled 3 (connect_log slow_poll slow_connect slow_getsockopt true (pos 5) registered 7)
    × (total (connect_log slow_poll slow_connect slow_getsockopt true (pos 5) registered 7) ≤ 75000)
unfolding get_file_desc has_nonblock
connect_bound_example =
    connect_bound slow_poll slow_connect slow_getsockopt (pos 5) registered new_file_desc 7 refl
      refl refl refl

-- With that `poll` there are three.
connect_log-runs :
    connect_log slow_poll slow_connect slow_getsockopt true (pos 5) registered 7
    ≡ (25000, 0) ∷ (25000, 0) ∷ (25000, 0) ∷ []
unfolding connect connect_registered connect_checked connect_loop get_file_desc has_nonblock
connect_log-runs = refl

-- It waits for all of the 75 seconds, and `errno` tells of it.
connect-times-out :
    connect slow_poll slow_connect slow_getsockopt true (pos 5) registered 7
    ≡ (record { ret = negsuc 0; errno = etimedout }, 75007)
unfolding connect connect_registered connect_checked connect_loop get_file_desc has_nonblock
connect-times-out = refl

-- Only the call 3, `socket`, is known yet; `dlsym` finds each call at 100 and its place.
abbrev table : HookTable
table x = if x == 3 then some 7 else none

abbrev finds : ℕ → Option ℕ
finds x = some (100 + x)

enable_hook-runs :
    ((enable_hook finds table).0 3 ≡ some 7) × ((enable_hook finds table).0 0 ≡ some 100)
unfolding enable_hook do_hooks do_hook all_found
enable_hook-runs = (refl, refl)
