-- ===== src/Poll/Events.antt =====
-- The two conversions of event masks of src/b_hook.cc. The masks are those of <poll.h> and
-- <sys/epoll.h>, where Linux gives both the same values. `|=` of a mask of one bit is written out.
use b_routine.Base.{ℕ, ◌+◌, ◌*◌, ◌/◌, ◌%◌, ◌<◌, ◌≡◌, ◌∙◌, ap, Bool, arith, ◌==◌, if◌then◌else◌}

abbrev pub pollin : ℕ
pollin = 1

abbrev pub pollpri : ℕ
pollpri = 2

abbrev pub pollout : ℕ
pollout = 4

abbrev pub pollerr : ℕ
pollerr = 8

abbrev pub pollhup : ℕ
pollhup = 16

abbrev pub pollrdhup : ℕ
pollrdhup = 8192

-- Whether a mask of one bit is set, and the value with that bit set.
abbrev pub has : ℕ → ℕ → Bool
has events mask = (events / mask) % 2 == 1

abbrev pub set_bit : ℕ → ℕ → ℕ
set_bit events mask = if has events mask then events else events + mask

-- `if (from & x) to |= y`.
abbrev pub carry : (from x to y : ℕ) → ℕ
carry from x to y = if has from x then set_bit to y else to

-- `epoll_to_poll_events`. The masks of epoll have the values of those of poll.
unfoldable pub epoll_to_poll_events : ℕ → ℕ
epoll_to_poll_events e =
    let v1 = carry e pollin 0 pollin in
    let v2 = carry e pollout v1 pollout in
    let v3 = carry e pollpri v2 pollpri in
    let v4 = carry e pollerr v3 pollerr in
    let v5 = carry e pollhup v4 pollhup in carry e pollrdhup v5 pollrdhup

-- `poll_to_epoll_events`.
unfoldable pub poll_to_epoll_events : ℕ → ℕ
poll_to_epoll_events e =
    let v1 = carry e pollin 0 pollin in
    let v2 = carry e pollout v1 pollout in
    let v3 = carry e pollpri v2 pollpri in
    let v4 = carry e pollerr v3 pollerr in
    let v5 = carry e pollhup v4 pollhup in carry e pollrdhup v5 pollrdhup

abbrev bit : ℕ → ℕ → ℕ
bit e x = (e / x) % 2

-- What of a mask the conversions keep.
abbrev pub known : ℕ → ℕ
known e = e % 32 + bit e 8192 * 8192

carry_in : (e : ℕ) → carry e 1 0 1 ≡ bit e 1
carry_in e = ground arith

carry_out : (e t : ℕ) → t < 2 → carry e 4 t 4 ≡ t + bit e 4 * 4
carry_out e t h = ground arith

carry_pri : (e t : ℕ) → t % 4 < 2 → carry e 2 t 2 ≡ t + bit e 2 * 2
carry_pri e t h = ground arith

carry_err : (e t : ℕ) → t < 8 → carry e 8 t 8 ≡ t + bit e 8 * 8
carry_err e t h = ground arith

carry_hup : (e t : ℕ) → t < 16 → carry e 16 t 16 ≡ t + bit e 16 * 16
carry_hup e t h = ground arith

carry_rdhup : (e t : ℕ) → t < 32 → carry e 8192 t 8192 ≡ t + bit e 8192 * 8192
carry_rdhup e t h = ground arith

chain :
    (e : ℕ)
    → carry e 8192 (carry e 16 (carry e 8 (carry e 2 (carry e 4 (carry e 1 0 1) 4) 2) 8) 16) 8192
      ≡ known e
chain e =
    rw
      (
        carry_in e,
        carry_out e (bit e 1) (omega arith),
        carry_pri e (bit e 1 + bit e 4 * 4) (omega arith),
        carry_err e (bit e 1 + bit e 4 * 4 + bit e 2 * 2) (omega arith),
        carry_hup e (bit e 1 + bit e 4 * 4 + bit e 2 * 2 + bit e 8 * 8) (omega arith),
        carry_rdhup e (bit e 1 + bit e 4 * 4 + bit e 2 * 2 + bit e 8 * 8 + bit e 16 * 16)
            (omega arith),
      )
      (omega arith)

-- Each conversion keeps the six flags that the library knows and drops every other bit, so going
-- there and back does the same; a mask of those flags alone comes back as it was.
pub events-known :
    (e : ℕ)
    → (epoll_to_poll_events e ≡ known e)
      × (poll_to_epoll_events e ≡ known e)
      × (epoll_to_poll_events (poll_to_epoll_events e) ≡ known e)
      × (e < 32 → epoll_to_poll_events (poll_to_epoll_events e) ≡ e)
unfolding epoll_to_poll_events poll_to_epoll_events
events-known e =
    let again : epoll_to_poll_events (poll_to_epoll_events e) ≡ known e =
      chain (poll_to_epoll_events e) ∙ ap known (chain e) ∙ omega arith in
    (chain e, chain e, again, λ h. again ∙ omega arith)
