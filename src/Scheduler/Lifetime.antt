-- ===== src/Scheduler/Lifetime.antt =====
-- How routines are made, recycled and freed (src/b_routine.cc, src/b_scheduler.cc,
-- src/b_routine_env.cc).
use b_routine.Base.{
  ℕ, ◌+◌, ◌≤◌, ◌<◌, ◌≡◌, ◌≢◌, refl, sym, subst, ap, ◌∙◌, true, false, [], ◌∷◌, ◌++◌, none, some,
  arith, ◌==◌, if◌then◌else◌, ==_refl,
}
use b_routine.Stacks.{Stack, StackPool, pool_push, max_keep}
use b_routine.Scheduler.{World, put, after_switch, recycle, end_routine}

-- What the stack pool answers when it has room, and when it is full.
pool_push-room :
    (s : Stack) (p : StackPool)
    → p.routine_nums < max_keep
    → (pool_push s p).0 ≡ some (p.routine_nums + 1)
unfolding pool_push
pool_push-room s p h = ground arith

pool_push-full : (s : Stack) (p : StackPool) → max_keep ≤ p.routine_nums → pool_push s p ≡ (none, p)
unfolding pool_push
pool_push-full s p h = ground arith

-- The routine that runs is `r`; it is not the main routine's and owns the stack `s`, and the
-- scheduler's own routine is pending.
pub record IsRunning (w : World) (r : ℕ) (s : Stack) : Type 0 where
  pub running : w.occupy ≡ r
  pub other : w.pending ≢ r
  pub not_main : (w.routine r).is_main ≡ false
  pub owns : (w.routine r).stack ≡ some s
  pub no_flag : w.is_pending_need_delete ≡ false

-- The world after the routine's function, and after the first line of `bRoutineRecycle`.
abbrev ended : World → ℕ → World
ended w r = record w {
  routine = put w.routine r (record (w.routine r) { is_done = true; is_begin = false; args = 0 });
}

abbrev marked : World → ℕ → World
marked w r = record w { routine = put w.routine r (record (w.routine r) { is_done = true }) }

abbrev kept : World → ℕ → Stack → World
kept u r s =
    let v = marked u r in
    record v {
      stack_pool = (pool_push s u.stack_pool).1;
      routine = put v.routine r (record (v.routine r) { stack = none });
      routine_pool = u.routine_pool ++ r ∷ [];
    }

abbrev flagged : World → ℕ → World
flagged u r = record (marked u r) { is_pending_need_delete = true }

recycle-kept :
    (u : World) (r n : ℕ) (s : Stack)
    → (u.routine r).is_main ≡ false
    → (u.routine r).stack ≡ some s
    → (pool_push s u.stack_pool).0 ≡ some n
    → recycle r u ≡ some (kept u r s)
unfolding recycle
recycle-kept u r n s m o p = ground arith

recycle-flagged :
    (u : World) (r : ℕ) (s : Stack)
    → (u.routine r).is_main ≡ false
    → (u.routine r).stack ≡ some s
    → (pool_push s u.stack_pool).0 ≡ none
    → recycle r u ≡ some (flagged u r)
unfolding recycle
recycle-flagged u r s m o p = ground arith

abbrev switched : World → World
switched w = record w { occupy = w.pending; pending = w.occupy }

end_routine-switched :
    (w u : World) (r : ℕ)
    → recycle r (ended w r) ≡ some u
    → (u.routine u.occupy).is_main ≡ false
    → end_routine r w ≡ some (switched u)
unfolding end_routine
end_routine-switched w u r e m = rw (e, end_routine) (rw m refl)

after_switch-flagged :
    (u : World)
    → u.is_pending_need_delete ≡ true
    → (u.routine u.pending).is_main ≡ false
    → after_switch u
      ≡ record u { allocated = put u.allocated u.pending false; is_pending_need_delete = false }
unfolding after_switch
after_switch-flagged u f m = ground arith

after_switch-unflagged : (u : World) → u.is_pending_need_delete ≡ false → after_switch u ≡ u
unfolding after_switch
after_switch-unflagged u f = rw f

module _ (u : World) (r : ℕ) where
  kept_at :
      (s : Stack)
      → (((kept u r s).routine r).is_main ≡ (u.routine r).is_main)
        × (((kept u r s).routine r).stack ≡ none)
        × (((kept u r s).routine r).is_done ≡ true)
  kept_at s = (rw (==_refl r), rw (==_refl r), rw (==_refl r))

  flagged_at : ((flagged u r).routine r).is_main ≡ (u.routine r).is_main
  flagged_at = rw (==_refl r)

  ended_at :
      (((ended u r).routine r).is_main ≡ (u.routine r).is_main)
      × (((ended u r).routine r).stack ≡ (u.routine r).stack)
  ended_at = (rw (==_refl r), rw (==_refl r))

-- A routine that is not the main routine and owns a stack, and that returns while another routine
-- is pending and no deletion is, gives the thread to the pending one. If the stack pool has room,
-- the routine goes to the end of the routine pool, without its stack, which is handed to `push` of
-- the stack pool, and nothing is freed. If the stack pool is full, both pools stay as they are, and
-- behind the switch the routine is freed and no other. Either way the ready list stays as it was.
pub end_routine_lem :
    (w : World) (r : ℕ) (s : Stack)
    → IsRunning w r s
    → ((w.stack_pool.routine_nums < max_keep)
        → (v : World) × (end_routine r w ≡ some v)
          × (after_switch v ≡ v)
          × (v.occupy ≡ w.pending)
          × (v.ready ≡ w.ready)
          × (v.routine_pool ≡ w.routine_pool ++ r ∷ [])
          × (v.stack_pool ≡ (pool_push s w.stack_pool).1)
          × ((v.routine r).stack ≡ none)
          × ((v.routine r).is_done ≡ true)
          × (v.allocated ≡ w.allocated))
      × ((max_keep ≤ w.stack_pool.routine_nums)
          → (v : World) × (end_routine r w ≡ some v)
            × ((after_switch v).occupy ≡ w.pending)
            × ((after_switch v).ready ≡ w.ready)
            × ((after_switch v).routine_pool ≡ w.routine_pool)
            × ((after_switch v).stack_pool ≡ w.stack_pool)
            × ((after_switch v).is_pending_need_delete ≡ false)
            × ((a : ℕ) → (after_switch v).allocated a ≡ (if a == r then false else w.allocated a)))
end_routine_lem w r s v =
    let (em, es) = ended_at w r in
    let m = em ∙ v.not_main in
    let o = es ∙ v.owns in
    (
      λ h.
          let u = kept (ended w r) r s in
          let (km, ks, kd) = kept_at (ended w r) r s in
          (
            switched u,
            end_routine-switched w u r
                (recycle-kept (ended w r) r _ s m o (pool_push-room s w.stack_pool h))
                (subst (λ x. (u.routine x).is_main ≡ false) (sym v.running) (km ∙ m)),
            after_switch-unflagged (switched u) v.no_flag,
            refl,
            refl,
            refl,
            refl,
            ks,
            kd,
            refl,
          ),
      λ h.
          let u = flagged (ended w r) r in
          let main = flagged_at (ended w r) r ∙ m in
          let at : (u.routine u.occupy).is_main ≡ false =
            subst (λ x. (u.routine x).is_main ≡ false) (sym v.running) main in
          let after = after_switch-flagged (switched u) refl at in
          (
            switched u,
            end_routine-switched w u r
                (recycle-flagged (ended w r) r s m o
                  (ap (λ x. x.0) (pool_push-full s w.stack_pool h)))
                at,
            ap (λ x. x.occupy) after,
            ap (λ x. x.ready) after,
            ap (λ x. x.routine_pool) after,
            ap (λ x. x.stack_pool) after,
            ap (λ x. x.is_pending_need_delete) after,
            λ a.
                ap (λ x. x.allocated a) after
                ∙ ap (λ x. if a == x then false else w.allocated a) v.running,
          ),
    )
