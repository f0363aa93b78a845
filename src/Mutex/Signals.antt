-- ===== src/Mutex/Signals.antt =====
-- `bCond` of src/b_mutex_cond.cc: who is made ready by the signals, and what a wait gives up.
use b_routine.Base.{
  ℕ, ◌≡◌, ◌≢◌, refl, sym, ap, ◌∙◌, true, false, Option, none, some, List, [], ◌∷◌, ◌++◌,
  append_assoc, append-nil, arith,
}
use b_routine.Mutex.{Mutex, take_first, unlock, signal_once, signal_all, wait_begin, time_wait_end}

signal_all-run : (waiting ready : List ℕ) → signal_all waiting ready ≡ ([], ready ++ waiting)
unfolding signal_all
signal_all-run [] ready = ap (λ l. ([], l)) (sym (append-nil ready))
signal_all-run (r ∷ rest) ready =
    signal_all-run rest (ready ++ r ∷ []) ∙ ap (λ l. ([], l)) (append_assoc ready (r ∷ []) rest)

-- `signalAll` makes every waiting routine ready, in the order in which they came, and leaves none;
-- `signalOnce` makes the first of them ready, and where none waits it uses a null pointer.
pub signal_all-signal_once :
    (waiting ready : List ℕ)
    → (signal_all waiting ready ≡ ([], ready ++ waiting))
      × ((waiting ≡ []) → signal_once waiting ≡ none)
      × ((r : ℕ) (rest : List ℕ)
          → waiting ≡ r ∷ rest
          → (signal_once waiting ≡ some (r, rest))
            × (signal_all waiting ready ≡ signal_all rest (ready ++ r ∷ [])))
unfolding signal_all signal_once
signal_all-signal_once waiting ready =
    (signal_all-run waiting ready, λ h. rw h, λ r rest h. (rw h, rw h))

-- A `wait` on a mutex that the caller holds frees the mutex and puts the caller behind those that
-- wait for the condition; on one that is not held it aborts, in the `unlock`.
pub wait_begin_lem :
    (self : ℕ) (m : Mutex) (waiting : List ℕ)
    → ((m.lock_count ≡ 1)
        → (woken : Option ℕ) × (m' : Mutex) × (unlock m ≡ some (woken, m'))
          × (m'.lock_count ≡ 0)
          × (wait_begin self m waiting ≡ some (woken, m', waiting ++ self ∷ [])))
      × (m.lock_count ≢ 1 → wait_begin self m waiting ≡ none)
unfolding wait_begin
wait_begin_lem self m waiting = (
  λ h. (
    (take_first m.waiting).0,
    record { lock_count = 0; waiting = (take_first m.waiting).1 },
    ground arith,
    refl,
    ground arith,
  ),
  λ h. ground arith,
)

-- A `timeWait` that was signalled takes its task off the wheel, locks the mutex again and returns 1;
-- one that timed out returns 0 and does not lock the mutex again.
pub time_wait_end_lem :
    (is_timeout : ℕ)
    → ((is_timeout ≡ 0)
        → ((time_wait_end is_timeout).locks ≡ true)
          × ((time_wait_end is_timeout).leaves_timer ≡ true)
          × ((time_wait_end is_timeout).result ≡ 1))
      × (is_timeout ≢ 0
          → ((time_wait_end is_timeout).locks ≡ false) × ((time_wait_end is_timeout).result ≡ 0))
unfolding time_wait_end
time_wait_end_lem n = (λ h. ground arith, λ h. ground arith)
