-- ===== src/Poll/Called.antt =====
-- The second loop of a batch of events: every callback is called.
use b_routine.Base.{
  ℕ, suc, ◌+◌, ◌<◌, ◌≡◌, ◌≢◌, refl, sym, subst, ap, ◌∙◌, ◌⊎◌, inl, inr, true, false, List, [], ◌∷◌,
  ◌++◌, arith, ◌==◌, if◌then◌else◌, times, times-append, Bool-cases,
}
use b_routine.Poll.{u64, Message, Shared, Event, poll_callback}
use b_routine.Poll.Batch.{callback_all, events_of}

-- The message counts `c` events that have been prepared and not called, and is not joined.
pub record IsPending (w : Shared) (m c : ℕ) : Type 0 where
  pub counter : (w.message m).active_fds_nums2 ≡ c
  pub not_joined : (w.message m).is_join_active_list ≡ false

-- What a callback leaves of a message but for its counter and its flag.
abbrev pub Rest : Message → Message → Type 0
Rest p q =
    (q.active_fds_nums ≡ p.active_fds_nums)
    × (q.is_remove_from_timeout_list ≡ p.is_remove_from_timeout_list)
    × (q.owner ≡ p.owner)
    × (q.pollfds ≡ p.pollfds)

record CallsBack (w v : Shared) (m c : ℕ) : Type 0 where
  counter : (v.message m).active_fds_nums2 ≡ c
  joined : (v.message m).is_join_active_list ≡ (c == 0)
  rest : Rest (w.message m) (v.message m)
  others : (a : ℕ) → a ≢ m → v.message a ≡ w.message a
  timer : v.timer ≡ w.timer
  ready : v.ready ≡ (if c == 0 then w.ready ++ m ∷ [] else w.ready)

callback_step :
    (w : Shared) (m c : ℕ)
    → IsPending w m (suc c)
    → suc c < u64
    → CallsBack w (poll_callback m w) m c
unfolding poll_callback
callback_step w m c p small = record {
  counter = ground arith;
  joined = ground arith;
  rest = (ground arith, ground arith, ground arith, ground arith);
  others = λ a d. ground arith;
  timer = ground arith;
  ready = ground arith;
}

Rest-trans : (p q r : Message) → Rest p q → Rest q r → Rest p r
Rest-trans p q r s t = (t.0 ∙ s.0, t.1 ∙ s.1, t.2 ∙ s.2, t.3 ∙ s.3)

Rest-same : {p q : Message} → q ≡ p → Rest p q
Rest-same e = (
  ap (λ x. x.active_fds_nums) e,
  ap (λ x. x.is_remove_from_timeout_list) e,
  ap (λ x. x.owner) e,
  ap (λ x. x.pollfds) e,
)

zero_or_pos : (n : ℕ) → (n ≡ 0) ⊎ (0 < n)
zero_or_pos n = omega arith

zero_test : (n : ℕ) → 0 < n → (n == 0) ≡ false
zero_test n h = ground arith

-- The ready list after a callback and the rest of the batch, by the events of the whole batch.
pushed :
    (m : ℕ) (ready : List ℕ) (e : Event) (es : List Event)
    → times m (if events_of e.message es == 0 then ready ++ e.message ∷ [] else ready)
        + (if events_of m es == 0 then 0 else 1)
      ≡ times m ready + (if events_of m (e ∷ es) == 0 then 0 else 1)
pushed m ready e es = elim (Bool-cases (e.message == m)) [
  | inl hit ↦
      let here : e.message ≡ m = ground arith in
      subst
        (λ x.
          times x (if events_of e.message es == 0 then ready ++ e.message ∷ [] else ready)
            + (if events_of x es == 0 then 0 else 1)
          ≡ times x ready + (if events_of x (e ∷ es) == 0 then 0 else 1))
        here (ground (arith, times-append e.message ready (e.message ∷ [])))
  | inr miss ↦ ground (arith, times-append m ready (e.message ∷ []))
]

-- What the second loop gives.
pub record Called (w v : Shared) (es : List Event) : Type 0 where
  pub joined : (m : ℕ) → 0 < events_of m es → (v.message m).is_join_active_list ≡ true
  pub rest : (m : ℕ) → Rest (w.message m) (v.message m)
  pub others : (m : ℕ) → events_of m es ≡ 0 → v.message m ≡ w.message m
  pub timer : v.timer ≡ w.timer
  pub ready : (m : ℕ) → times m v.ready ≡ times m w.ready + (if events_of m es == 0 then 0 else 1)

pub callback_all-Called :
    (es : List Event) (w : Shared)
    → ((m : ℕ) → 0 < events_of m es → IsPending w m (events_of m es))
    → ((m : ℕ) → events_of m es < u64)
    → Called w (callback_all es w) es
unfolding callback_all
callback_all-Called [] w p small = record {
  joined = λ m h. absurd (omega arith);
  rest = λ m. (refl, refl, refl, refl);
  others = λ m h. refl;
  timer = refl;
  ready = λ m. ground arith;
}
callback_all-Called (e ∷ es) w p small =
    let c = events_of e.message es in
    let own : events_of e.message (e ∷ es) ≡ suc c = ground arith in
    let s =
      callback_step w e.message c
        (subst (IsPending w e.message) own (p e.message (omega (arith, own))))
        (omega (arith, own, small e.message)) in
    let v = poll_callback e.message w in
    let next : (m : ℕ) → 0 < events_of m es → IsPending v m (events_of m es) = λ m h.
      elim (Bool-cases (e.message == m)) [
        | inl hit ↦
            let here : e.message ≡ m = ground arith in
            subst (λ x. IsPending v x (events_of x es)) here
              (record {
                counter = s.counter;
                not_joined = s.joined ∙ zero_test c (subst (λ x. 0 < events_of x es) (sym here) h);
              })
        | inr miss ↦
            let same = s.others m (λ x. ground arith) in
            let old = p m (ground arith) in
            record {
              counter = ap (λ x. x.active_fds_nums2) same ∙ old.counter ∙ ground arith;
              not_joined = ap (λ x. x.is_join_active_list) same ∙ old.not_joined;
            }
      ] in
    let at : (m : ℕ) → Rest (w.message m) (v.message m) = λ m. elim (Bool-cases (e.message == m)) [
      | inl hit ↦
          let here : e.message ≡ m = ground arith in
          subst (λ x. Rest (w.message x) (v.message x)) here s.rest
      | inr miss ↦ Rest-same (s.others m (λ x. ground arith))
    ] in
    let r = callback_all-Called es v next (λ m. ground (arith, small m)) in
    record {
      joined = λ m h. elim (zero_or_pos (events_of m es)) [
        | inr more ↦ r.joined m more
        | inl last ↦
            let here : e.message ≡ m = ground arith in
            ap (λ x. x.is_join_active_list) (r.others m last)
            ∙ subst (λ x. (v.message x).is_join_active_list ≡ (events_of x es == 0)) here s.joined
            ∙ ap (λ k. k == 0) last
      ];
      rest = λ m.
          Rest-trans (w.message m) (v.message m) ((callback_all es v).message m) (at m) (r.rest m);
      others = λ m h. r.others m (ground arith) ∙ s.others m (λ x. ground arith);
      timer = r.timer ∙ s.timer;
      ready = λ m.
          r.ready m
          ∙ ap (λ k. k + (if events_of m es == 0 then 0 else 1)) (ap (times m) s.ready)
          ∙ pushed m w.ready e es;
    }
