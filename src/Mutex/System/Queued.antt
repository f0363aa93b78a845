-- ===== src/Mutex/System/Queued.antt =====
-- The queues of a `bMutex` (src/b_mutex_cond.cc) lose no routine and hold none twice.
use b_routine.Base.{
  Bool, ◌⊎◌, ℕ, ◌≡◌, ◌≢◌, ◌≤◌, refl, sym, subst, ap, ◌∙◌, inl, inr, Option, some, List, [], ◌∷◌,
  ◌++◌, append_assoc, arith, ◌==◌, ==_refl, ne→==, In, Distinct, In-split, In-append_left,
  In-append_right, Distinct-append, ne_of_NotIn, NotIn-of_ne, Bool-cases,
}
use b_routine.Mutex.{Mutex, acquired, parked, first_i, lock_round, unlock}
use b_routine.Mutex.System.{
  Phase, outside, trying, asleep, inside, System, put, to_list, Step, call, call_again, try, leave,
  wake, Reach, here, next, start,
}

-- The routines made ready and those that wait, the ready ones first.
abbrev pub queued : System → List ℕ
queued s = s.ready ++ s.mutex.waiting

-- The routines that sleep in `lock` are those in the queues, each there once, and the counter is 0 or 1,
-- or what it was at first.
pub record IsQueued (count : ℕ) (s : System) : Type 0 where
  pub bit : (s.mutex.lock_count ≡ count) ⊎ (s.mutex.lock_count ≤ 1)
  pub sleeps : (r : ℕ) → In r (queued s) → (i : ℕ) × (s.phase r ≡ asleep i)
  pub listed : (r i : ℕ) → s.phase r ≡ asleep i → In r (queued s)
  pub once : Distinct (queued s)

start-IsQueued : (count : ℕ) → IsQueued count (start count)
start-IsQueued count = record {
  bit = inl refl;
  sleeps = λ r h. absurd h;
  listed = λ r i e. cc;
  once = tt;
}

-- Who sleeps after another routine's phase was set to an awake one slept before.
still :
    (f : ℕ → Phase) (r x i : ℕ) (p : Phase)
    → ((k : ℕ) → p ≢ asleep k)
    → put f r p x ≡ asleep i
    → f x ≡ asleep i
still f r x i p is e = ground (arith, is i)

-- A step that changes the phase of an awake routine to another awake one and spares the queues.
awake :
    {count : ℕ} (s t : System) (r : ℕ) (p : Phase)
    → IsQueued count s
    → ((i : ℕ) → s.phase r ≢ asleep i)
    → ((i : ℕ) → p ≢ asleep i)
    → (t.mutex.lock_count ≡ count) ⊎ (t.mutex.lock_count ≤ 1)
    → queued t ≡ queued s
    → t.phase ≡ put s.phase r p
    → IsQueued count t
awake s t r p v was is c q f = record {
  bit = c;
  sleeps = λ x h.
      let (i, e) = v.sleeps x (subst (In x) q h) in
      let ne : x ≢ r = λ k. was i (ap s.phase (sym k) ∙ e) in (i, rw (f, ne→== x r ne) e);
  listed =
      λ x i e. rw q (v.listed x i (still s.phase r x i p is (subst (λ g. g x ≡ asleep i) f e)));
  once = rw q v.once;
}

acquired-lock_round :
    (i r : ℕ) (m m' : Mutex)
    → lock_round i r m ≡ (acquired, m')
    → (m'.lock_count ≤ 1) × (m'.waiting ≡ m.waiting)
unfolding lock_round
acquired-lock_round i r m m' e = ground arith

parked-lock_round :
    (i k r : ℕ) (m m' : Mutex)
    → lock_round i r m ≡ (parked k, m')
    → (m'.lock_count ≡ m.lock_count) × (m'.waiting ≡ m.waiting ++ r ∷ [])
unfolding lock_round
parked-lock_round i k r m m' e = ground arith

unlock-waiting :
    (m m' : Mutex) (woken : Option ℕ)
    → unlock m ≡ some (woken, m')
    → (m'.lock_count ≤ 1) × (to_list woken ++ m'.waiting ≡ m.waiting)
unfolding unlock
unlock-waiting m m' woken e = by_list m.waiting refl
  where
    by_list :
        (l : List ℕ)
        → m.waiting ≡ l
        → (m'.lock_count ≤ 1) × (to_list woken ++ m'.waiting ≡ m.waiting)
    by_list [] q = ground arith
    by_list (r ∷ rest) q = ground arith

-- A routine that has just parked stands at the end of the queues.
park :
    {count : ℕ} (s : System) (r i k : ℕ) (m : Mutex)
    → IsQueued count s
    → s.phase r ≡ trying i
    → (m.lock_count ≡ s.mutex.lock_count) × (m.waiting ≡ s.mutex.waiting ++ r ∷ [])
    → IsQueued count (record s { mutex = m; phase = put s.phase r (asleep k) })
park s r i k m v e (c, w) =
    let t : System = record s { mutex = m; phase = put s.phase r (asleep k) } in
    let all : queued t ≡ queued s ++ r ∷ [] =
      ap (λ l. s.ready ++ l) w ∙ sym (append_assoc s.ready s.mutex.waiting (r ∷ [])) in
    let apart : (x : ℕ) → In x (queued s) → x ≢ r =
      λ x h q. let (j, g) = v.sleeps x h in cc (ap s.phase q) in
    record {
      bit = elim v.bit [ inl e ↦ inl (c ∙ e) | inr b ↦ inr (omega (arith, c)) ];
      sleeps = λ x h. elim (In-split x (queued s) (r ∷ []) (subst (In x) all h)) [
        | inl h' ↦ let (j, g) = v.sleeps x h' in (j, rw (ne→== x r (apart x h')) g)
        | inr (inl q) ↦ (k, rw (q, ==_refl r))
        | inr (inr h') ↦ absurd h'
      ];
      listed = λ x j g. rw all (elim (Bool-cases (x == r)) [
        | inl same ↦ In-append_right x (queued s) (r ∷ []) (inl (ground arith))
        | inr other ↦ In-append_left x (queued s) (r ∷ []) (v.listed x j (rw other at g))
      ]);
      once = rw all (
          Distinct-append (queued s) (r ∷ []) v.once (tt, tt)
            λ a i'. elim i' [
              | inl q ↦ rw q (NotIn-of_ne r (queued s) (λ x h. apart x h))
              | inr h ↦ absurd h
            ]);
    }

not-asleep : (f : ℕ → Phase) (r x i j : ℕ) → put f r (trying i) x ≡ asleep j → x ≢ r
not-asleep f r x i j g q = ground arith

-- A woken routine leaves the front of the queues.
unpark :
    {count : ℕ} (s : System) (r i : ℕ) (rest : List ℕ)
    → IsQueued count s
    → s.ready ≡ r ∷ rest
    → s.phase r ≡ asleep i
    → IsQueued count (record s { ready = rest; phase = put s.phase r (trying i) })
unpark s r i rest v front e =
    let all : queued s ≡ r ∷ (rest ++ s.mutex.waiting) = ap (λ l. l ++ s.mutex.waiting) front in
    let once = subst Distinct all v.once in
    let back : List ℕ = rest ++ s.mutex.waiting in
    record {
      bit = v.bit;
      sleeps = λ x h.
          let (j, g) = v.sleeps x (rw all (inr h)) in
          (j, rw (ne→== x r (ne_of_NotIn back once.0 h)) g);
      listed = λ x j g.
          let old = still s.phase r x j (trying i) (λ k. λ q. cc) g in
          elim (subst (In x) all (v.listed x j old)) [
            | inl q ↦ absurd (not-asleep s.phase r x i j g q)
            | inr h ↦ h
          ];
      once = once.1;
    }

-- Every step keeps the queues in order.
Step-IsQueued :
    {count : ℕ} {nested : Bool} {s t : System}
    → Step nested s t
    → IsQueued count s
    → IsQueued count t
Step-IsQueued {s} (call r e) v = awake s _ r (trying first_i) v (λ i. cc) (λ i. cc) v.bit refl refl
Step-IsQueued {s} (call_again r n e) v =
    awake s _ r (trying first_i) v (λ i. cc) (λ i. cc) v.bit refl refl
Step-IsQueued {s} (try r i acquired m e f) v =
    let (b, w) = acquired-lock_round i r s.mutex m f in
    awake s _ r inside v (λ k. cc) (λ k. cc) (inr b) (ap (λ l. s.ready ++ l) w) refl
Step-IsQueued {s} (try r i (parked k) m e f) v =
    park s r i k m v e (parked-lock_round i k r s.mutex m f)
Step-IsQueued {s} (leave r woken m e f) v =
    let (b, w) = unlock-waiting s.mutex m woken f in
    awake s _ r outside v (λ k. cc) (λ k. cc) (inr b)
      (append_assoc s.ready (to_list woken) m.waiting ∙ ap (λ l. s.ready ++ l) w) refl
Step-IsQueued {s} (wake r i rest e f) v = unpark s r i rest v e f

-- In every state that routines can reach from a new mutex, whatever its counter holds at first and also
-- where routines inside call `lock` again, those that sleep in `lock` are exactly those that wait or
-- have been made ready, each once: no wake-up is handed to a routine that does not sleep, and no
-- sleeping routine has dropped out of the queues. The counter is 0 or 1, or what it was at first.
pub Reach-IsQueued :
    {count : ℕ} {nested : Bool} {s : System} → Reach nested (start count) s → IsQueued count s
Reach-IsQueued {count} here = start-IsQueued count
Reach-IsQueued (next r st) = Step-IsQueued st (Reach-IsQueued r)
