-- ===== src/Mutex/System/Overlap.antt =====
-- Two routines inside one `bMutex` (src/b_mutex_cond.cc).
use b_routine.Base.{ℕ, ◌≡◌, ◌≢◌, refl, false, none, some, List, [], ◌∷◌, arith}
use b_routine.Mutex.{Mutex, acquired, parked, lock_round, unlock}
use b_routine.Mutex.System.{
  Phase, outside, trying, asleep, inside, System, put, Step, call, try, leave, wake, Reach, here,
  next, start,
}

abbrev mutex : ℕ → List ℕ → Mutex
mutex c w = record { lock_count = c; waiting = w }

abbrev system : Mutex → List ℕ → (ℕ → Phase) → System
system m r f = record { mutex = m; ready = r; phase = f }

-- The states of the run, in order.
module _ (p q r : ℕ) where
  abbrev s1 : System
  s1 = system (mutex 0 []) [] (put (start 0).phase p (trying 0))

  abbrev s2 : System
  s2 = system (mutex 1 []) [] (put s1.phase p inside)

  abbrev s3 : System
  s3 = system (mutex 1 []) [] (put s2.phase r (trying 0))

  abbrev s4 : System
  s4 = system (mutex 1 (r ∷ [])) [] (put s3.phase r (asleep 1))

  abbrev s5 : System
  s5 = system (mutex 0 []) (r ∷ []) (put s4.phase p outside)

  abbrev s6 : System
  s6 = system (mutex 0 []) (r ∷ []) (put s5.phase q (trying 0))

  abbrev s7 : System
  s7 = system (mutex 1 []) (r ∷ []) (put s6.phase q inside)

  abbrev s8 : System
  s8 = system (mutex 1 []) [] (put s7.phase r (trying 1))

  abbrev s9 : System
  s9 = system (mutex 1 []) [] (put s8.phase r inside)

  abbrev s10 : System
  s10 = system (mutex 0 []) [] (put s9.phase q outside)

-- On a mutex whose counter is 0 at first, any three routines can bring two of them inside at once, though
-- no routine calls `lock` while it is inside: `r` parks while `p` holds it,
-- `q` takes it after `p` has left, and then `r`, woken by `p`, takes it too. Once `q` has left, `r`
-- is still inside and its `unlock` aborts.
pub Reach-two_inside :
    (p q r : ℕ)
    → p ≢ q
    → p ≢ r
    → q ≢ r
    → (s : System) × (t : System) × Reach false (start 0) s
      × (s.phase q ≡ inside)
      × (s.phase r ≡ inside)
      × Step false s t
      × (t.phase r ≡ inside)
      × (unlock t.mutex ≡ none)
unfolding lock_round unlock
Reach-two_inside p q r pq pr qr =
    let c1 : Step false (start 0) (s1 p q r) = call p refl in
    let c2 : Step false (s1 p q r) (s2 p q r) = try p 0 acquired (mutex 1 []) (ground arith) refl in
    let c3 : Step false (s2 p q r) (s3 p q r) = call r (ground arith) in
    let c4 : Step false (s3 p q r) (s4 p q r) =
      try r 0 (parked 1) (mutex 1 (r ∷ [])) (ground arith) refl in
    let c5 : Step false (s4 p q r) (s5 p q r) = leave p (some r) (mutex 0 []) (ground arith) refl in
    let c6 : Step false (s5 p q r) (s6 p q r) = call q (ground arith) in
    let c7 : Step false (s6 p q r) (s7 p q r) = try q 0 acquired (mutex 1 []) (ground arith) refl in
    let c8 : Step false (s7 p q r) (s8 p q r) = wake r 1 [] refl (ground arith) in
    let c9 : Step false (s8 p q r) (s9 p q r) = try r 1 acquired (mutex 1 []) (ground arith) refl in
    let c10 : Step false (s9 p q r) (s10 p q r) = leave q none (mutex 0 []) (ground arith) refl in
    (
      s9 p q r,
      s10 p q r,
      next (next (next (next (next (next (next (next (next here c1) c2) c3) c4) c5) c6) c7) c8) c9,
      ground arith,
      ground arith,
      c10,
      ground arith,
      refl,
    )
