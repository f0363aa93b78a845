-- ===== src/Mutex/System.antt =====
-- Routines that share one `bMutex` (src/b_mutex_cond.cc) on one worker thread. Scheduling is not
-- preemptive, so a round of `lock` up to its return or its `SwapContext`, and a call of `unlock`,
-- are each one step. `nested` tells whether a routine inside may call `lock` again.
pub mod Overlap
pub mod Queued
use b_routine.Base.{
  ℕ, ◌≡◌, Bool, true, Option, none, some, List, [], ◌∷◌, ◌++◌, ◌==◌, if◌then◌else◌,
}
use b_routine.Mutex.{Mutex, Turn, acquired, parked, first_i, lock_round, unlock}

-- Where a routine stands. `trying` and `asleep` keep the variable `i` of its call of `lock`.
pub data Phase : Type 0 where
  outside : Phase
  trying : ℕ → Phase
  asleep : ℕ → Phase
  inside : Phase

pub record System : Type 0 where
  pub mutex : Mutex
  pub ready : List ℕ
  pub phase : ℕ → Phase

abbrev pub put : (ℕ → Phase) → ℕ → Phase → ℕ → Phase
put f r p q = if q == r then p else f q

-- The phase after a round of `lock`.
abbrev pub after : Turn → Phase
after acquired = inside
after (parked i) = asleep i

abbrev pub to_list : Option ℕ → List ℕ
to_list none = []
to_list (some r) = r ∷ []

pub data Step (nested : Bool) (s : System) : System → Type 0 where
  call :
      (r : ℕ)
      → s.phase r ≡ outside
      → Step nested s (record s { phase = put s.phase r (trying first_i) })
  call_again :
      (r : ℕ)
      → nested ≡ true
      → s.phase r ≡ inside
      → Step nested s (record s { phase = put s.phase r (trying first_i) })
  try :
      (r i : ℕ) (turn : Turn) (m : Mutex)
      → s.phase r ≡ trying i
      → lock_round i r s.mutex ≡ (turn, m)
      → Step nested s (record s { mutex = m; phase = put s.phase r (after turn) })
  leave :
      (r : ℕ) (woken : Option ℕ) (m : Mutex)
      → s.phase r ≡ inside
      → unlock s.mutex ≡ some (woken, m)
      → Step nested s
          (record { mutex = m; ready = s.ready ++ to_list woken; phase = put s.phase r outside })
  wake :
      (r i : ℕ) (rest : List ℕ)
      → s.ready ≡ r ∷ rest
      → s.phase r ≡ asleep i
      → Step nested s (record s { ready = rest; phase = put s.phase r (trying i) })

pub data Reach (nested : Bool) (s : System) : System → Type 0 where
  here : Reach nested s s
  next : {t u : System} → Reach nested s t → Step nested t u → Reach nested s u

-- `bMutex::bMutex`, with nobody in a call. The constructor does not set the counter: it is 0 where the
-- mutex is static, and any bits elsewhere.
abbrev pub start : (count : ℕ) → System
start count = record {
  mutex = record { lock_count = count; waiting = [] };
  ready = [];
  phase = λ r. outside;
}
