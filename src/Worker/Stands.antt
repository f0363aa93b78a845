-- ===== src/Worker/Stands.antt =====
-- The two routines that `CreatMutProcessEnv` of src/b_routine_env.cc makes, through the switches of
-- src/b_scheduler.cc up to its return.
use b_routine.Base.{ℕ, ◌≡◌, ◌≢◌, refl, sym, Bool, true, false, List, [], ◌∷◌, some, ==_refl, ne→==}
use b_routine.Stacks.{Os, Stack, StackPool}
use b_routine.Scheduler.{World, put, swap_context, dispatch, begin_routine}
use b_routine.Scheduler.Made.{made}
use b_routine.Worker.Boot.{BootInput, change, scheduler_creat, mark_process}

-- The world in front of the switch to the process's routine.
abbrev pub marked : Os → BootInput → World → Stack → StackPool → World
marked os b w s stacks =
    let v = scheduler_creat b.main w in
    let u = record v {
      routine = put v.routine v.occupy (record (v.routine v.occupy) { id = 1 });
    } in
    mark_process b.fresh (made os b.process_begin b.thread_args u s stacks b.fresh [])

-- Who runs, who is ready, and the flags of the two routines that `init` makes.
pub record Stands (b : BootInput) (v : World) (runs : ℕ) (l : List ℕ) (waits begun : Bool)
    : Type 0 where
  pub at : (v.occupy ≡ runs) × (v.ready ≡ l)
  pub main : ((v.routine b.main).is_main ≡ true) × ((v.routine b.main).is_progress ≡ waits)
  pub fresh :
      ((v.routine b.fresh).is_main ≡ false)
      × ((v.routine b.fresh).is_begin ≡ begun)
      × ((v.routine b.fresh).is_progress ≡ true)

pub marked-Stands :
    (os : Os) (b : BootInput) (w : World) (s : Stack) (stacks : StackPool)
    → b.fresh ≢ b.main
    → Stands b (marked os b w s stacks) b.main [] true false
unfolding scheduler_creat mark_process
marked-Stands os b w s stacks other =
    let a = ==_refl b.main in
    let c = ==_refl b.fresh in
    let d = ne→== b.fresh b.main other in
    let e = ne→== b.main b.fresh (λ q. other (sym q)) in
    record {
      at = (refl, refl);
      main = (rw a refl, rw (a, e) refl);
      fresh = (rw (d, c) refl, rw (d, c) refl, rw (d, c) refl);
    }

-- `SwapContext` from the main routine makes its task ready.
pub swap-Stands :
    (b : BootInput) (v : World)
    → b.fresh ≢ b.main
    → v.pending ≡ b.fresh
    → Stands b v b.main [] true false
    → Stands b (swap_context v) b.fresh (b.main ∷ []) false false
unfolding swap_context
swap-Stands b v other p h =
    let a = ==_refl b.main in
    let d = ne→== b.fresh b.main other in
    let (o, l) = h.at in
    let (m, pm) = h.main in
    record {
      at = (p, rw (o, m, pm, l) refl);
      main = (rw (o, m, pm, a) refl, rw (o, m, pm, a) refl);
      fresh = (rw (o, m, pm, d) h.fresh.0, rw (o, m, pm, d) h.fresh.1, rw (o, m, pm, d) h.fresh.2);
    }

abbrev pub begun : World → World
begun v = record v {
  routine = put v.routine v.occupy (record (v.routine v.occupy) { is_begin = true });
}

pub begin-Stands :
    (b : BootInput) (v : World)
    → b.fresh ≢ b.main
    → Stands b v b.fresh (b.main ∷ []) false false
    → (begin_routine v.occupy v ≡ some (begun v))
      × Stands b (begun v) b.fresh (b.main ∷ []) false true
unfolding begin_routine
begin-Stands b v other h =
    let c = ==_refl b.fresh in
    let e = ne→== b.main b.fresh (λ q. other (sym q)) in
    let o = h.at.0 in
    let not_begun = h.fresh.1 in
    (
      rw (o, not_begun) refl,
      record {
        at = h.at;
        main = (rw (o, e) h.main.0, rw (o, e) h.main.1);
        fresh = (rw (o, c) h.fresh.0, rw (o, c) refl, rw (o, c) h.fresh.2);
      },
    )

pub dispatch-Stands :
    (b : BootInput) (v : World)
    → Stands b v b.fresh (b.main ∷ []) false true
    → (u : World) × (dispatch v ≡ some u) × (u.pending ≡ b.fresh) × Stands b u b.main [] false true
unfolding dispatch swap_context
dispatch-Stands b v h =
    let (o, l) = h.at in
    let ordinary = h.fresh.0 in
    (
      record v { ready = []; pending = v.occupy; occupy = b.main },
      rw (l, o, ordinary, dispatch) refl,
      o,
      record { at = (refl, refl); main = h.main; fresh = h.fresh },
    )

abbrev pub entered : World → World
entered v = change v v.occupy (λ x. record x { is_progress = true })

pub enter-Stands :
    (b : BootInput) (v : World)
    → b.fresh ≢ b.main
    → Stands b v b.fresh (b.main ∷ []) false true
    → Stands b (entered v) b.fresh (b.main ∷ []) false true
enter-Stands b v other h =
    let c = ==_refl b.fresh in
    let e = ne→== b.main b.fresh (λ q. other (sym q)) in
    let o = h.at.0 in
    record {
      at = h.at;
      main = (rw (o, e) h.main.0, rw (o, e) h.main.1);
      fresh = (rw (o, c) h.fresh.0, rw (o, c) h.fresh.1, rw (o, c) refl);
    }
