-- ===== src/Mutex/Turns.antt =====
-- What one round of `bMutex::lock` and a call of `bMutex::unlock` do (src/b_mutex_cond.cc).
use b_routine.Base.{ℕ, ◌≡◌, refl, some, List, [], ◌∷◌, ◌++◌, arith}
use b_routine.Mutex.{Mutex, parked, lock_round, unlock}

-- The wake-up is lost: a routine that parked at a held mutex and is handed out by the next `unlock`
-- parks again at once, behind the others that wait, though the mutex is free.
pub unlock-lock_round :
    (m : Mutex) (r : ℕ) (rest : List ℕ)
    → m.lock_count ≡ 1
    → m.waiting ≡ r ∷ rest
    → (m' : Mutex) × (unlock m ≡ some (some r, m'))
      × (m'.lock_count ≡ 0)
      × (lock_round 1 r m' ≡ (parked 0, record { lock_count = 0; waiting = rest ++ r ∷ [] }))
unfolding unlock lock_round
unlock-lock_round m r rest h k =
    (record { lock_count = 0; waiting = rest }, ground arith, refl, refl)
