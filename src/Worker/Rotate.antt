-- ===== src/Worker/Rotate.antt =====
-- Rounds of `ProcessBegin` (src/b_scheduler.cc) in which the routines yield (src/b_routine.cc).
use b_routine.Base.{
  ℕ, ◌+◌, ◌-◌, ◌%◌, ◌≡◌, refl, sym, ◌∙◌, ◌⊎◌, inl, inr, true, false, List, [], ◌∷◌, ◌++◌,
  append_assoc, append-nil, Option, none, some, arith,
}
use b_routine.Scheduler.{World, yield, dispatch, after_switch}
use b_routine.Worker.{u64, Machine, Input, switches, sleeps, check_env, round}

-- A whole round: `Deal`, the switch to the first ready routine, which does nothing but `yield`, and what
-- the scheduler does when it runs again. The task itself, which it frees, is no part of the ready list of
-- routines. Where no task is ready, the round ends in the idle wait.
unfoldable pub yielding_round : (fuel : ℕ) → Input → Machine → Option Machine
unfolding round yield after_switch
yielding_round fuel i m = elim (round fuel i m) [
  | none ↦ none
  | some (sleeps, v) ↦ some v
  | some (switches, v) ↦ elim (yield v.world) [
    | none ↦ none
    | some w ↦ some (record v { world = after_switch w })
  ]
]

pub yielding_rounds : (fuel : ℕ) → List Input → Machine → Option Machine
unfolding yielding_round
yielding_rounds fuel [] m = some m
yielding_rounds fuel (i ∷ is) m = elim (yielding_round fuel i m) [
  | none ↦ none
  | some v ↦ yielding_rounds fuel is v
]

-- The scheduler's own routine runs, it is not the main routine's, and no deletion is pending.
abbrev pub IsScheduling : World → Type 0
IsScheduling w =
    ((w.routine w.occupy).is_main ≡ false)
    × ((w.routine w.occupy).is_progress ≡ true)
    × (w.is_pending_need_delete ≡ false)

-- The round leaves the environment alone: the time is that of the last check, or another thread is in
-- `Deal`.
abbrev pub IsQuiet : Machine → Input → Type 0
IsQuiet m i = ((i.now + u64 - m.env.last_check_time) % u64 ≡ 0) ⊎ (i.lock_free ≡ false)

-- There is a quiet round for each of the routines, which may be made ready again.
abbrev pub AllQuiet : Machine → List Input → List ℕ → Type 0
AllQuiet m [] [] = Unit {0}
AllQuiet m [] (r ∷ rs) = ⊥
AllQuiet m (i ∷ is) [] = ⊥
AllQuiet m (i ∷ is) (r ∷ rs) =
    IsQuiet m i × (((m.world.routine r).is_progress ≡ false) × AllQuiet m is rs)

-- After one yielding round the routine stands at the end of the ready list, and the scheduler runs.
abbrev turned : Machine → (r : ℕ) → List ℕ → Machine
turned m r rest = record m { world = record (m.world) { ready = rest ++ r ∷ []; pending = r } }

check_env-quiet : (fuel : ℕ) (i : Input) (m : Machine) → IsQuiet m i → check_env fuel i m ≡ some m
unfolding check_env
check_env-quiet fuel i m (inl e) = rw e refl
check_env-quiet fuel i m (inr e) = ground arith

yielding_round_lem :
    (fuel : ℕ) (i : Input) (m : Machine) (r : ℕ) (rest : List ℕ)
    → IsQuiet m i
    → IsScheduling m.world
    → (m.world.routine r).is_progress ≡ false
    → m.world.ready ≡ r ∷ rest
    → yielding_round fuel i m ≡ some (turned m r rest)
unfolding yielding_round round dispatch yield after_switch
yielding_round_lem fuel i m r rest quiet (k, p, f) q e =
    let env = check_env-quiet fuel i m quiet in ground arith

-- Two machines are the same but for the ready list and the pending routine.
pub record SameBut (v w : Machine) : Type 0 where
  pub routines : w.world.routine ≡ v.world.routine
  pub alive : w.world.allocated ≡ v.world.allocated
  pub running : w.world.occupy ≡ v.world.occupy
  pub pools :
      (w.world.routine_pool ≡ v.world.routine_pool) × (w.world.stack_pool ≡ v.world.stack_pool)
  pub flag : w.world.is_pending_need_delete ≡ v.world.is_pending_need_delete
  pub last_id : w.world.last_id ≡ v.world.last_id
  pub env : w.env ≡ v.env
  pub tasks : w.self_of ≡ v.self_of

-- Routines that do nothing but yield are served in turn: as many whole rounds as there are routines in
-- front of the others move exactly those behind the others, in their order, and change nothing else but
-- the pending routine. With no others the ready list is what it was. The scheduler's own
-- routine runs, which is not the main routine, no deletion is pending, the routines may be made ready
-- again, and in each round the time is that of the last check of the environment or another thread is in `Deal`.
pub yielding_rounds-rotate :
    (fuel : ℕ) (is : List Input) (xs ys : List ℕ) (m : Machine)
    → IsScheduling m.world
    → AllQuiet m is xs
    → m.world.ready ≡ xs ++ ys
    → (v : Machine) × (yielding_rounds fuel is m ≡ some v)
      × (v.world.ready ≡ ys ++ xs)
      × SameBut m v
unfolding yielding_rounds
yielding_rounds-rotate fuel [] [] ys m s a e = (
  m,
  refl,
  e ∙ sym (append-nil ys),
  record {
    routines = refl;
    alive = refl;
    running = refl;
    pools = (refl, refl);
    flag = refl;
    last_id = refl;
    env = refl;
    tasks = refl;
  },
)
yielding_rounds-rotate fuel [] (x ∷ xs) ys m s a e = absurd a
yielding_rounds-rotate fuel (i ∷ is) [] ys m s a e = absurd a
yielding_rounds-rotate fuel (i ∷ is) (x ∷ xs) ys m s a e =
    let step = yielding_round_lem fuel i m x (xs ++ ys) a.0 s a.1.0 e in
    let (v, f, g, h) =
      yielding_rounds-rotate fuel is xs (ys ++ x ∷ []) (turned m x (xs ++ ys)) s (same is xs a.1.1)
        (append_assoc xs ys (x ∷ [])) in
    (
      v,
      rw (step, yielding_rounds) f,
      g ∙ append_assoc ys (x ∷ []) xs,
      record {
        routines = h.routines;
        alive = h.alive;
        running = h.running;
        pools = h.pools;
        flag = h.flag;
        last_id = h.last_id;
        env = h.env;
        tasks = h.tasks;
      },
    )
  where
    same :
        (js : List Input) (zs : List ℕ) → AllQuiet m js zs → AllQuiet (turned m x (xs ++ ys)) js zs
    same [] [] b = tt
    same [] (z ∷ zs) b = b
    same (j ∷ js) [] b = b
    same (j ∷ js) (z ∷ zs) b = (b.0, (b.1.0, same js zs b.1.1))
