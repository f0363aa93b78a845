-- ===== src/Deal/Timeouts.antt =====
-- The loop of `Deal` over the tasks that the timer gives back (src/b_routine_env.cc).
use b_routine.Base.{
  ℕ, ◌≡◌, refl, sym, ap, subst, none, ==_refl, ◌∙◌, true, List, [], ◌∷◌, ◌++◌, append_assoc,
  append-nil, arith, ◌==◌, if◌then◌else◌, times, Bool-cases, inl, inr,
}
use b_routine.Poll.{Message, put}
use b_routine.Deal.{OnTimeout, nothing, poll, cond, Env, timeout_call, time_out, time_out_all}

-- The message is as before, but for its task, if that is in the list.
abbrev pub flagged : List ℕ → ℕ → Message → Message
flagged ts m p = record p {
  is_task_timeout = if times m ts == 0 then p.is_task_timeout else true;
  owner = if times m ts == 0 then p.owner else none;
}

pub record TimedOut (e v : Env) (ts : List ℕ) : Type 0 where
  pub ready : v.shared.ready ≡ e.shared.ready ++ ts
  pub timer : v.shared.timer ≡ e.shared.timer
  pub messages : (m : ℕ) → v.shared.message m ≡ flagged ts m (e.shared.message m)

timeout_call-keeps :
    (c : OnTimeout) (e : Env)
    → ((timeout_call c e).shared.ready ≡ e.shared.ready)
      × ((timeout_call c e).shared.timer ≡ e.shared.timer)
      × ((timeout_call c e).shared.message ≡ e.shared.message)
unfolding timeout_call
timeout_call-keeps nothing e = (refl, refl, refl)
timeout_call-keeps (poll m) e = (refl, refl, refl)
timeout_call-keeps (cond a) e = (refl, refl, refl)

flagged_one :
    (t m : ℕ) (f : ℕ → Message)
    → put f t (record (f t) { is_task_timeout = true; owner = none }) m ≡ flagged (t ∷ []) m (f m)
flagged_one t m f = elim (Bool-cases (t == m)) [
  | inl hit ↦
      let here : t ≡ m = ground arith in
      subst
        (λ x.
          put f t (record (f t) { is_task_timeout = true; owner = none }) x
          ≡ flagged (t ∷ []) x (f x))
        here (rw (==_refl t) refl)
  | inr miss ↦ ground arith
]

flagged_both :
    (t : ℕ) (ts : List ℕ) (m : ℕ) (p : Message)
    → flagged ts m (flagged (t ∷ []) m p) ≡ flagged (t ∷ ts) m p
flagged_both t ts m p = ground arith

time_out-TimedOut : (t : ℕ) (e : Env) → TimedOut e (time_out t e) (t ∷ [])
unfolding time_out
time_out-TimedOut t e =
    let (r, ti, me) = timeout_call-keeps (e.on_timeout t) e in
    record {
      ready = ap (λ l. l ++ t ∷ []) r;
      timer = ti;
      messages = λ m.
          ap (λ f. put f t (record (f t) { is_task_timeout = true; owner = none }) m) me
          ∙ flagged_one t m e.shared.message;
    }

pub time_out_all-TimedOut : (ts : List ℕ) (e : Env) → TimedOut e (time_out_all ts e) ts
unfolding time_out_all
time_out_all-TimedOut [] e = record {
  ready = sym (append-nil _);
  timer = refl;
  messages = λ m. refl;
}
time_out_all-TimedOut (t ∷ ts) e =
    let a = time_out-TimedOut t e in
    let b = time_out_all-TimedOut ts (time_out t e) in
    record {
      ready = b.ready ∙ ap (λ l. l ++ ts) a.ready ∙ append_assoc e.shared.ready (t ∷ []) ts;
      timer = b.timer ∙ a.timer;
      messages = λ m.
          b.messages m
          ∙ ap (flagged ts m) (a.messages m)
          ∙ flagged_both t ts m (e.shared.message m);
    }
