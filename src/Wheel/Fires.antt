-- ===== src/Wheel/Fires.antt =====
-- When a task that `getBucket` placed comes back from `NewMergeUpdate2Now` (src/b_epoll.cc).
use native.Mathlib.Decide.{dec_lt}
use native.Mathlib.Nat.{mod-eq_of_lt, mod-eq-sub-mod, mod-lt, add-mod_right}
use b_routine.Base.{
  ℕ, zero, suc, ◌+◌, ◌-◌, ◌%◌, ◌≤◌, ◌<◌, ◌≡◌, refl, subst, ◌∙◌, ◌≢◌, ◌⊎◌, inl, inr, List, arith,
  ltb, if◌then◌else◌, ◌==◌, ◌∷◌, [], times, times-append, ==_refl, ne→==, In, NotIn, NotIn-append,
  In-append_left, In-append_right,
}
use b_routine.Wheel.{u64, Timer, get_bucket, push_task}
use b_routine.Wheel.Merge.{due, IsRunning}

pub get_bucket-add :
    (t : Timer) (w now : ℕ)
    → IsRunning t now
    → w ≤ t.bucket_size
    → get_bucket t w ≡ (t.bucket_pos_now + w) % t.bucket_size
unfolding get_bucket
get_bucket-add t w now v h =
    let room = v.size_small in
    let pos = v.pos_lt in
    let want : (if ltb t.bucket_size w then t.bucket_size else w) ≡ w = ground arith in
    let whole : (t.bucket_pos_now + w) % u64 ≡ t.bucket_pos_now + w = mod-eq_of_lt (omega arith) in
    rw (want, whole)

-- `getBucket` answers an index of the array for every wait, however long, and a wait above a whole
-- turn is cut to a turn: it lands on the bucket of the current position.
pub get_bucket-lt :
    (t : Timer) (w now : ℕ)
    → IsRunning t now
    → (get_bucket t w < t.bucket_size) × (t.bucket_size ≤ w → get_bucket t w ≡ t.bucket_pos_now)
unfolding get_bucket
get_bucket-lt t w now v =
    let room = v.size_small in
    let pos = v.pos_lt in
    (
      mod-lt _ (omega arith),
      λ h.
          let want : (if ltb t.bucket_size w then t.bucket_size else w) ≡ t.bucket_size =
            ground arith in
          let whole : (t.bucket_pos_now + t.bucket_size) % u64 ≡ t.bucket_pos_now + t.bucket_size =
            mod-eq_of_lt (omega arith) in
          rw (want, whole, add-mod_right t.bucket_pos_now t.bucket_size, mod-eq_of_lt pos) refl,
    )

In-due : (b : ℕ → List ℕ) (task i n j : ℕ) → i ≤ j → j < i + n → In task (b j) → In task (due b i n)
In-due b task i zero j h k m = absurd (omega arith)
In-due b task i (suc n) j h k m = elim (cases) [
  | inl e ↦ In-append_left task (b i) _ (subst (λ x. In task (b x)) e m)
  | inr ne ↦ In-append_right task (b i) _ (In-due b task (i + 1) n j ne (omega arith) m)
]
  where
    cases : (j ≡ i) ⊎ (i + 1 ≤ j)
    cases = omega arith

NotIn-due :
    (b : ℕ → List ℕ) (task i n : ℕ)
    → ((j : ℕ) → i ≤ j → j < i + n → NotIn task (b j))
    → NotIn task (due b i n)
NotIn-due b task i zero h = tt
NotIn-due b task i (suc n) h =
    NotIn-append task (b i) _ (h i (omega arith) (omega arith))
      (NotIn-due b task (i + 1) n λ j p q. h j (omega arith) (omega arith))

In-push : (t : Timer) (i task : ℕ) → In task ((push_task t i task).bucket i)
unfolding push_task
In-push t i task = rw (==_refl i) (In-append_right task (t.bucket i) _ (inl refl))

pub times-push_task :
    (t : Timer) (i m j : ℕ)
    → times m (t.bucket j) ≡ 0
    → times m ((push_task t i m).bucket j) ≡ (if j == i then 1 else 0)
unfolding push_task
times-push_task t i m j h = ground (arith, times-append m (t.bucket j) (m ∷ []))

NotIn-push :
    (t : Timer) (i task j : ℕ)
    → j ≢ i
    → NotIn task (t.bucket j)
    → NotIn task ((push_task t i task).bucket j)
unfolding push_task
NotIn-push t i task j h n = rw (ne→== j i h) n

-- A wait that has not passed lands outside the buckets that an advance goes through, also where it
-- wraps around the array.
far :
    (p w e size i j : ℕ)
    → i ≡ (p + w) % size
    → e < w
    → w < size
    → p < size
    → p + 1 ≤ j
    → j < p + 1 + e
    → j ≢ i
far p w e size i j at early small pos lo hi = elim (dec_lt (p + w) size) [
  | yes h ↦ let here = at ∙ mod-eq_of_lt h in λ q. omega arith
  | no h ↦
      let wrapped : i ≡ p + w - size =
        at ∙ mod-eq-sub-mod (omega arith) ∙ mod-eq_of_lt (omega arith) in
      λ q. omega arith
]

-- A task put in with a wait of `w` milliseconds, at least one and less than a turn, is among the
-- tasks of an advance by `e` (short of the end of the array) if the wait has passed, and is not
-- among them if it has not, provided that it stood in no bucket before.
pub due-get_bucket :
    (t : Timer) (now w e task : ℕ)
    → IsRunning t now
    → 0 < w
    → w < t.bucket_size
    → t.bucket_pos_now + e < t.bucket_size
    → ((j : ℕ) → NotIn task (t.bucket j))
    → let merged = due (push_task t (get_bucket t w) task).bucket (t.bucket_pos_now + 1) e in
      (w ≤ e → In task merged) × (e < w → NotIn task merged)
due-get_bucket t now w e task v some_wait small room fresh =
    let pos = v.pos_lt in
    let i = get_bucket t w in
    let at : i ≡ (t.bucket_pos_now + w) % t.bucket_size = get_bucket-add t w now v (omega arith) in
    let near : w ≤ e → i ≡ t.bucket_pos_now + w = λ h. at ∙ mod-eq_of_lt (omega arith) in
    (
      λ passed.
          In-due _ task (t.bucket_pos_now + 1) e i (omega (arith, near passed))
            (omega (arith, near passed)) (In-push t i task),
      λ early. NotIn-due _ task (t.bucket_pos_now + 1) e λ j p q.
          NotIn-push t i task j (far t.bucket_pos_now w e t.bucket_size i j at early small pos p q)
            (fresh j),
    )
