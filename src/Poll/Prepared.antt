-- ===== src/Poll/Prepared.antt =====
-- The first loop of a batch of events: every event is prepared.
use b_routine.Base.{
  ℕ, zero, suc, ◌+◌, ◌<◌, ◌≡◌, refl, subst, ap, ◌∙◌, ◌⊎◌, inl, inr, List, [], ◌∷◌, some, arith,
  ◌==◌, if◌then◌else◌, Bool-cases,
}
use b_routine.Poll.{u64, Shared, Event}
use b_routine.Poll.Batch.{
  perpare_all, events_of, Seen, Same, Kept, Steps, perpare-first, perpare-again,
}

Same-trans : (u v w : Shared) (m : ℕ) → Same u v m → Same v w m → Same u w m
Same-trans u v w m s t = (t.0 ∙ s.0, λ j. t.1 j ∙ s.1 j)

Kept-trans : (u v w : Shared) → Kept u v → Kept v w → Kept u w
Kept-trans u v w s t = record {
  ready = t.ready ∙ s.ready;
  ctl = t.ctl ∙ s.ctl;
  position = t.position ∙ s.position;
  size = t.size ∙ s.size;
  clock = t.clock ∙ s.clock;
}

-- What is seen of a message stays while nothing changes about it.
Seen-Same : (v w : Shared) (m c : ℕ) → Same v w m → Seen v m c → Seen w m c
Seen-Same v w m zero (e, n) (b, s) = (
  b,
  record {
    owned = ap (λ x. x.owner) e ∙ s.owned;
    no_events = (
      ap (λ x. x.active_fds_nums) e ∙ s.no_events.0,
      ap (λ x. x.active_fds_nums2) e ∙ s.no_events.1,
    );
    not_joined = ap (λ x. x.is_join_active_list) e ∙ s.not_joined;
    not_removed = ap (λ x. x.is_remove_from_timeout_list) e ∙ s.not_removed;
    once = λ j. n j ∙ s.once j;
  },
)
Seen-Same v w m (suc c) (e, n) s = record {
  events =
      (ap (λ x. x.active_fds_nums) e ∙ s.events.0, ap (λ x. x.active_fds_nums2) e ∙ s.events.1);
  not_joined = ap (λ x. x.is_join_active_list) e ∙ s.not_joined;
  removed = ap (λ x. x.is_remove_from_timeout_list) e ∙ s.removed;
  unowned = ap (λ x. x.owner) e ∙ s.unowned;
  off_timer = λ j. n j ∙ s.off_timer j;
}

perpare_step : (e : Event) (w : Shared) (c : ℕ) → Seen w e.message c → suc c < u64 → Steps e w c
perpare_step e w zero (b, s) small = perpare-first e w b s
perpare_step e w (suc c) s small = perpare-again e w c s small

-- What the first loop gives, where `f m` events of a message have been prepared before.
abbrev Prepares : List Event → (ℕ → ℕ) → Shared → Type 0
Prepares es f w =
    (v : Shared) × (perpare_all es w ≡ some v)
    × Kept w v
    × ((m : ℕ) → 0 < events_of m es → Seen v m (f m + events_of m es))
    × ((m : ℕ) → events_of m es ≡ 0 → Same w v m)

abbrev raised : Event → (ℕ → ℕ) → ℕ → ℕ
raised e f m = if e.message == m then suc (f m) else f m

zero_or_pos : (n : ℕ) → (n ≡ 0) ⊎ (0 < n)
zero_or_pos n = omega arith

pub perpare_all-Prepares :
    (es : List Event) (f : ℕ → ℕ) (w : Shared)
    → ((m : ℕ) → 0 < events_of m es → Seen w m (f m))
    → ((m : ℕ) → f m + events_of m es + 1 < u64)
    → Prepares es f w
unfolding perpare_all
perpare_all-Prepares [] f w s small = (
  w,
  refl,
  record { ready = refl; ctl = refl; position = refl; size = refl; clock = refl },
  λ m h. absurd (omega arith),
  λ m h. (refl, λ j. refl),
)
perpare_all-Prepares (e ∷ es) f w s small =
    let (u, q, noted, kept, same) =
      perpare_step e w (f e.message) (s e.message (ground arith))
        (ground (arith, small e.message)) in
    let once_more : suc (f e.message) ≡ raised e f e.message = ground arith in
    let base = subst (Seen u e.message) once_more noted in
    let at : (m : ℕ) → 0 < events_of m (e ∷ es) → Seen u m (raised e f m) = λ m h.
      elim (Bool-cases (e.message == m)) [
        | inl hit ↦
            let here : e.message ≡ m = ground arith in
            subst (λ x. Seen u x (raised e f x)) here base
        | inr miss ↦ rw miss (Seen-Same w u m (f m) (same m (λ x. ground arith)) (s m h))
      ] in
    let (v, r, kept', seen, same') =
      perpare_all-Prepares es (raised e f) u (λ m h. at m (ground arith))
        (λ m. ground (arith, small m)) in
    (
      v,
      rw (q, perpare_all) r,
      Kept-trans w u v kept kept',
      λ m h.
          let total : raised e f m + events_of m es ≡ f m + events_of m (e ∷ es) = ground arith in
          subst (Seen v m) total (elim (zero_or_pos (events_of m es)) [
            | inl none_left ↦
                let last : raised e f m ≡ raised e f m + events_of m es = omega arith in
                subst (Seen v m) last (Seen-Same u v m (raised e f m) (same' m none_left) (at m h))
            | inr more ↦ seen m more
          ]),
      λ m h. Same-trans w u v m (same m (λ x. ground arith)) (same' m (ground arith)),
    )
