-- ===== src/Deal/Rings.antt =====
-- `CondTimeOutCallback` (src/b_mutex_cond.cc) among the callbacks that the loop of `Deal` calls for the
-- tasks that have timed out (src/b_routine_env.cc).
use b_routine.Base.{ℕ, ◌≡◌, refl, sym, subst, ap, ◌∙◌, inl, inr, List, [], ◌∷◌, In, arith, ==_refl}
use b_routine.Deal.{OnTimeout, nothing, poll, cond, Env, timeout_call, time_out, time_out_all}

-- A callback leaves what is marked, and does not change which callback a task has.
call-leaves :
    (c : OnTimeout) (e : Env) (a : ℕ) → e.is_timeout a ≡ 1 → (timeout_call c e).is_timeout a ≡ 1
unfolding timeout_call
call-leaves nothing e a h = h
call-leaves (poll m) e a h = h
call-leaves (cond b) e a h = ground arith

call-on_timeout : (c : OnTimeout) (e : Env) → (timeout_call c e).on_timeout ≡ e.on_timeout
unfolding timeout_call
call-on_timeout nothing e = refl
call-on_timeout (poll m) e = refl
call-on_timeout (cond b) e = refl

time_out_all-leaves :
    (ts : List ℕ) (e : Env) (a : ℕ) → e.is_timeout a ≡ 1 → (time_out_all ts e).is_timeout a ≡ 1
unfolding time_out_all time_out
time_out_all-leaves [] e a h = h
time_out_all-leaves (t ∷ ts) e a h =
    time_out_all-leaves ts (time_out t e) a (call-leaves (e.on_timeout t) e a h)

call-rings : (c : OnTimeout) (e : Env) (a : ℕ) → c ≡ cond a → (timeout_call c e).is_timeout a ≡ 1
unfolding timeout_call
call-rings c e a h = subst (λ x. (timeout_call x e).is_timeout a ≡ 1) (sym h) (rw (==_refl a) refl)

-- The loop marks the timeout of each task in the queue that belongs to a `timeWait`.
pub time_out_all-rings :
    (ts : List ℕ) (e : Env) (t a : ℕ)
    → In t ts
    → e.on_timeout t ≡ cond a
    → (time_out_all ts e).is_timeout a ≡ 1
unfolding time_out_all time_out
time_out_all-rings [] e t a h c = absurd h
time_out_all-rings (x ∷ ts) e t a (inl h) c =
    time_out_all-leaves ts (time_out x e) a
      (call-rings (e.on_timeout x) e a (ap e.on_timeout (sym h) ∙ c))
time_out_all-rings (x ∷ ts) e t a (inr h) c =
    time_out_all-rings ts (time_out x e) t a h
      (ap (λ f. f t) (call-on_timeout (e.on_timeout x) e) ∙ c)
