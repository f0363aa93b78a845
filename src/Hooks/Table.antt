-- ===== src/Hooks/Table.antt =====
-- The hooked calls of src/b_hook.cc that open, close and set up descriptors.
use b_routine.Base.{
  ℕ, ◌-◌, ◌^◌, ◌<◌, ◌≤◌, ◌≡◌, Bool, true, not, Option, none, some, arith, ◌∙◌, if◌then◌else◌,
}
use b_routine.Hooks.{
  ℤ, pos, negsuc, fd_nums, Timeval, FileDesc, FdSet, put, new_file_desc, alloc_file_desc,
  get_file_desc, free_file_desc, with_nonblock, Command, f_getfl, f_setfl, fcntl,
}

-- An `int` of flags as its bits.
abbrev pub to_bits : ℤ → ℕ
to_bits (pos f) = f
to_bits (negsuc n) = 2 ^ 32 - 1 - n

-- `SOL_SOCKET`, `SO_RCVTIMEO` and `SO_SNDTIMEO`, and what else there is.
pub data Level : Type 0 where
  sol_socket : Level
  other_level : ℕ → Level

pub data OptionName : Type 0 where
  so_rcvtimeo : OptionName
  so_sndtimeo : OptionName
  other_name : ℕ → OptionName

-- The part of `setsockopt` that writes the descriptor.
unfoldable pub set_timeouts : Level → OptionName → Timeval → FileDesc → FileDesc
set_timeouts sol_socket so_rcvtimeo val lp = record lp { rtimeout = val }
set_timeouts sol_socket so_sndtimeo val lp = record lp { wtimeout = val }
set_timeouts sol_socket (other_name n) val lp = lp
set_timeouts (other_level l) name val lp = lp

abbrev pub change_at : (FileDesc → FileDesc) → ℤ → FdSet → FdSet
change_at f (negsuc n) t = t
change_at f (pos fd) t = elim (get_file_desc (pos fd) t) [
  | none ↦ t
  | some lp ↦ put t fd (some (f lp))
]

module _ {K : Type 0} (sys_fcntl : ℤ → Command → K → ℤ × K)
    (sys_socket : (domain : ℤ) (kind protocol : ℕ) → K → ℤ × K) (sys_accept : ℤ → K → ℤ × K)
    (sys_close : ℤ → K → ℤ × K)
    (sys_setsockopt : ℤ → Level → OptionName → Timeval → K → ℤ × K) where
  -- `socket` once the system has answered `fd`; `none` is the write outside the table.
  register_socket : Bool → (fd : ℕ) (domain : ℤ) → FdSet → K → Option (ℤ × FdSet × K)
  unfolding alloc_file_desc fcntl
  register_socket hook fd domain t k = elim (alloc_file_desc fd t) [
    | none ↦ none
    | some t' ↦
        let described = put t' fd (some (record new_file_desc { domain = domain })) in
        let (flags, k') = sys_fcntl (pos fd) f_getfl k in
        let (ret, t'', k'') =
          fcntl sys_fcntl hook (pos fd) (f_setfl (to_bits flags)) described k' in
        some (pos fd, t'', k'')
  ]

  -- `socket`.
  pub socket : Bool → (domain : ℤ) (kind protocol : ℕ) → FdSet → K → Option (ℤ × FdSet × K)
  unfolding register_socket
  socket hook domain kind protocol t k =
      let (fd, k') = sys_socket domain kind protocol k in
      if not hook then some (fd, t, k') else elim fd [
        | negsuc n ↦ some (negsuc n, t, k')
        | pos a ↦ register_socket hook a domain t k'
      ]

  -- `accept`; the address that the system writes is not modelled.
  pub accept : Bool → ℤ → FdSet → K → Option (ℤ × FdSet × K)
  unfolding alloc_file_desc
  accept hook fd t k =
      let (cli, k') = sys_accept fd k in
      if not hook then some (cli, t, k') else elim cli [
        | negsuc n ↦ some (negsuc n, t, k')
        | pos a ↦ elim (alloc_file_desc a t) [ none ↦ none | some t' ↦ some (pos a, t', k') ]
      ]

  -- `close`.
  pub close : Bool → ℤ → FdSet → K → ℤ × FdSet × K
  unfolding free_file_desc
  close hook fd t k =
      let (ret, k') = sys_close fd k in (ret, if hook then free_file_desc fd t else t, k')

  -- `setsockopt`, with what the option's pointer points to.
  unfoldable pub setsockopt : Bool → ℤ → Level → OptionName → Timeval → FdSet → K → ℤ × FdSet × K
  unfolding set_timeouts
  setsockopt hook fd level name val t k =
      let (ret, k') = sys_setsockopt fd level name val k in
      (ret, if hook then change_at (set_timeouts level name val) fd t else t, k')

  register_socket-runs :
      (fd f : ℕ) (domain : ℤ) (t : FdSet) (k k' k'' : K)
      → fd < fd_nums
      → sys_fcntl (pos fd) f_getfl k ≡ (pos f, k')
      → sys_fcntl (pos fd) (f_setfl (with_nonblock f)) k' ≡ (pos 0, k'')
      → register_socket true fd domain t k
        ≡ some (
          pos fd,
          put
              (put
                (put t fd (some new_file_desc))
                fd
                (some (record new_file_desc { domain = domain })))
              fd
              (some (record new_file_desc { user_flags = f; domain = domain })),
          k'',
        )
  unfolding register_socket alloc_file_desc fcntl get_file_desc
  register_socket-runs fd f domain t k k' k'' h b c = ground arith

  socket-answered :
      (domain : ℤ) (kind protocol fd : ℕ) (t : FdSet) (k k' : K)
      → sys_socket domain kind protocol k ≡ (pos fd, k')
      → socket true domain kind protocol t k ≡ register_socket true fd domain t k'
  unfolding socket
  socket-answered domain kind protocol fd t k k' a = ground arith

  -- With hooks on, where the system opens a descriptor, reports its flags and accepts them with
  -- `O_NONBLOCK` added, `socket` registers it with its domain and those flags and makes it
  -- non-blocking; `accept` registers the descriptor that the system answers with no flags and leaves
  -- it as it came; a `close` unregisters it again. Where the system's number is past the table, both
  -- `socket` and `accept` write outside it.
  pub socket-accept-close :
      (domain : ℤ) (kind protocol fd f : ℕ) (listening : ℤ) (t : FdSet) (k k1 k2 k3 k4 : K)
      → sys_socket domain kind protocol k ≡ (pos fd, k1)
      → sys_fcntl (pos fd) f_getfl k1 ≡ (pos f, k2)
      → sys_fcntl (pos fd) (f_setfl (with_nonblock f)) k2 ≡ (pos 0, k3)
      → sys_accept listening k ≡ (pos fd, k4)
      → ((fd < fd_nums)
          → (u : FdSet) × (socket true domain kind protocol t k ≡ some (pos fd, u, k3))
            × (get_file_desc (pos fd) u
                ≡ some (record new_file_desc { user_flags = f; domain = domain }))
            × (accept true listening t k ≡ some (pos fd, put t fd (some new_file_desc), k4))
            × (get_file_desc (pos fd) (close true (pos fd) u k3).1 ≡ none))
        × (fd_nums ≤ fd
            → (socket true domain kind protocol t k ≡ none) × (accept true listening t k ≡ none))
  unfolding socket accept close alloc_file_desc register_socket get_file_desc fcntl free_file_desc
  socket-accept-close domain kind protocol fd f listening t k k1 k2 k3 k4 a b c d =
      let described =
        put (put t fd (some new_file_desc)) fd (some (record new_file_desc { domain = domain })) in
      (
        λ h. (
          put described fd (some (record new_file_desc { user_flags = f; domain = domain })),
          socket-answered domain kind protocol fd t k k1 a
              ∙ register_socket-runs fd f domain t k1 k2 k3 h b c,
          ground arith,
          ground arith,
          ground arith,
        ),
        λ h. (ground arith, ground arith),
      )
