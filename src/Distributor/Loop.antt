-- ===== src/Distributor/Loop.antt =====
-- The rounds of the loop of `stealTaskRoutine` (src/b_routine_env.cc), one after the other.
use b_routine.Base.{
  Bool-cases, inl, inr, append_assoc, append-nil, ℕ, zero, suc, ◌+◌, ◌<◌, ◌≤◌, ◌≡◌, ◌≢◌, refl, sym,
  subst, ap, ◌∙◌, List, [], ◌++◌, arith, ◌==◌, ne→==, ==_refl,
}
use b_routine.Distributor.{
  Task, Distributor, Result, ok, put, TryLocks, to_list, try_to_steal, steal_from, steal_loop,
}
use b_routine.Distributor.Steal.{
  IsLoneMain, weigh_all, weigh-append, weigh-try_to_steal, weigh_all-put,
}

-- A round moves tasks and makes or drops none.
steal_from-weigh :
    (w : Task → ℕ) (locks : TryLocks) (self id n : ℕ) (d : Distributor)
    → id < n
    → self < n
    → id ≢ self
    → ¬ IsLoneMain (d.active_tasks id)
    → weigh_all w (steal_from locks self id d).active_tasks n ≡ weigh_all w d.active_tasks n
unfolding steal_from
steal_from-weigh w locks self id n d a b ne lone =
    let l = d.active_tasks id in
    let p = (try_to_steal locks l).0 in
    let left = (try_to_steal locks l).1 in
    let lists = put d.active_tasks id left in
    let other : lists self ≡ d.active_tasks self = rw (ne→== self id (λ e. ne (sym e))) in
    omega (
      arith,
      weigh_all-put w d.active_tasks id n left a,
      weigh_all-put w lists self n (lists self ++ to_list p) b,
      weigh-append w (lists self) (to_list p),
      weigh-try_to_steal w locks l lone,
    )

-- What a round leaves in the lists.
steal_from_other :
    (locks : TryLocks) (self id j : ℕ) (d : Distributor)
    → j ≢ self
    → j ≢ id
    → (steal_from locks self id d).active_tasks j ≡ d.active_tasks j
unfolding steal_from
steal_from_other locks self id j d a b = rw (ne→== j self a, ne→== j id b) refl

steal_from_visited :
    (locks : TryLocks) (self id : ℕ) (d : Distributor)
    → id ≢ self
    → (steal_from locks self id d).active_tasks id ≡ (try_to_steal locks (d.active_tasks id)).1
unfolding steal_from
steal_from_visited locks self id d a = rw (ne→== id self a, ==_refl id) refl

steal_from_self :
    (locks : TryLocks) (self id : ℕ) (d : Distributor)
    → id ≢ self
    → (steal_from locks self id d).active_tasks self
      ≡ d.active_tasks self ++ to_list (try_to_steal locks (d.active_tasks id)).0
unfolding steal_from
steal_from_self locks self id d a = rw (==_refl self, ne→== self id (λ e. a (sym e))) refl

stop :
    (fuel : ℕ) (locks : ℕ → TryLocks) (self : ℕ) (d : Distributor)
    → steal_loop (suc fuel) locks self self d ≡ ok d
unfolding steal_loop
stop fuel locks self d = rw (==_refl self)

pub go_on :
    (fuel : ℕ) (locks : ℕ → TryLocks) (self id : ℕ) (d : Distributor)
    → id ≢ self
    → id < d.size
    → d.size ≤ d.capacity
    → steal_loop (suc fuel) locks self id d
      ≡ steal_loop fuel locks self (id + 1) (steal_from (locks id) self id d)
unfolding steal_loop
go_on fuel locks self id d n a b = ground arith

-- What `Try2stealTask` answers at each of `k` lists from `id` on, in order.
abbrev pub stolen : (ℕ → TryLocks) → (ℕ → List Task) → (id k : ℕ) → List Task
stolen locks lists id zero = []
stolen locks lists id (suc k) =
    to_list (try_to_steal (locks id) (lists id)).0 ++ stolen locks lists (id + 1) k

stolen-same :
    (locks : ℕ → TryLocks) (f g : ℕ → List Task) (id k : ℕ)
    → ((j : ℕ) → id ≤ j → j < id + k → f j ≡ g j)
    → stolen locks f id k ≡ stolen locks g id k
stolen-same locks f g id zero e = refl
stolen-same locks f g id (suc k) e =
    rw
      (
        e id (omega arith) (omega arith),
        stolen-same locks f g (id + 1) k (λ j a b. e j (omega arith) (omega arith)),
      )
      refl

-- The loop has visited the lists from `id` to `self`, each once.
pub record Visited (w : Task → ℕ) (locks : ℕ → TryLocks) (self id k : ℕ) (d d' : Distributor)
    : Type 0 where
  pub size : d'.size ≡ d.size
  pub weight : weigh_all w d'.active_tasks d.size ≡ weigh_all w d.active_tasks d.size
  pub before : (j : ℕ) → j < id → d'.active_tasks j ≡ d.active_tasks j
  pub left :
      (j : ℕ)
      → id ≤ j
      → j < self
      → d'.active_tasks j ≡ (try_to_steal (locks j) (d.active_tasks j)).1
  pub got : d'.active_tasks self ≡ d.active_tasks self ++ stolen locks d.active_tasks id k

abbrev Visits :
    (Task → ℕ) → (ℕ → TryLocks) → (self id k : ℕ) → Distributor → Result Distributor → Type 0
Visits w locks self id k d r = (d' : Distributor) × (r ≡ ok d') × Visited w locks self id k d d'

Visited-first :
    (w : Task → ℕ) (locks : ℕ → TryLocks) (self id k : ℕ) (d d' : Distributor)
    → id + suc k ≡ self
    → self < d.size
    → ¬ IsLoneMain (d.active_tasks id)
    → Visited w locks self (id + 1) k (steal_from (locks id) self id d) d'
    → Visited w locks self id (suc k) d d'
unfolding steal_from
Visited-first w locks self id k d d' e a lone v =
    let other = steal_from_other (locks id) self id in
    let one = to_list (try_to_steal (locks id) (d.active_tasks id)).0 in
    let lists = (steal_from (locks id) self id d).active_tasks in
    record {
      size = v.size;
      weight =
          v.weight
          ∙ steal_from-weigh w (locks id) self id d.size d (omega arith) a (omega arith) lone;
      before = λ j h. v.before j (omega arith) ∙ other j d (omega arith) (omega arith);
      left = λ j h k'. elim (Bool-cases (j == id)) [
        | inl same ↦
            let here : j ≡ id = ground arith in
            rw here
              (v.before id (omega arith) ∙ steal_from_visited (locks id) self id d (omega arith))
        | inr differ ↦
            let ne : j ≢ id = ground arith in
            v.left j (omega arith) k'
            ∙ ap (λ l. (try_to_steal (locks j) l).1) (other j d (omega arith) ne)
      ];
      got =
          v.got
          ∙ ap (λ l. l ++ stolen locks lists (id + 1) k)
              (steal_from_self (locks id) self id d (omega arith))
          ∙ append_assoc (d.active_tasks self) one (stolen locks lists (id + 1) k)
          ∙ ap (λ l. d.active_tasks self ++ (one ++ l))
              (stolen-same locks lists d.active_tasks (id + 1) k
                (λ j p q. other j d (omega arith) (omega arith)));
    }

pub steal_loop-Visits :
    (w : Task → ℕ) (k fuel : ℕ) (locks : ℕ → TryLocks) (self id : ℕ) (d : Distributor)
    → id + k ≡ self
    → k < fuel
    → self < d.size
    → d.size ≤ d.capacity
    → ((j : ℕ) → id ≤ j → j < self → ¬ IsLoneMain (d.active_tasks j))
    → Visits w locks self id k d (steal_loop fuel locks self id d)
unfolding steal_from
steal_loop-Visits w k zero locks self id d e f a b lone = elim f [ ]
steal_loop-Visits w zero (suc fuel) locks self id d e f a b lone =
    let same : id ≡ self = omega arith in
    (
      d,
      rw same (stop fuel locks self d),
      record {
        size = refl;
        weight = refl;
        before = λ j h. refl;
        left = λ j p q. absurd (omega arith);
        got = sym (append-nil (d.active_tasks self));
      },
    )
steal_loop-Visits w (suc k) (suc fuel) locks self id d e f a b lone =
    let next = steal_from (locks id) self id d in
    let (d', g, v) =
      steal_loop-Visits w k fuel locks self (id + 1) next (omega arith) (omega arith) a b (λ j p q.
        subst (λ l. ¬ IsLoneMain l)
          (sym (steal_from_other (locks id) self id j d (omega arith) (omega arith)))
          (lone j (omega arith) q)) in
    (
      d',
      go_on fuel locks self id d (omega arith) (omega arith) b ∙ g,
      Visited-first w locks self id k d d' e a (lone id (omega arith) (omega arith)) v,
    )
