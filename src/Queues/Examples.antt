-- ===== src/Queues/Examples.antt =====
-- Tests of the two small lists on nodes at 1 and 2.
use b_routine.Base.{refl, Bool, ◌||◌, [], ◌∷◌, arith, ◌==◌, if◌then◌else◌}
use b_routine.Nodes.{Nodes, Ends}
use b_routine.Nodes.Chain.{IsChain}
use b_routine.Nodes.Grow.{IsFresh}
use b_routine.Queues.{PoolList, Attempt}

abbrev nodes : Nodes
nodes = record {
  live = λ a. (a == 1) || (a == 2);
  prev = λ a. if a == 2 then 1 else 0;
  next = λ a. if a == 1 then 2 else 0;
  value = λ a. if a == 1 then 71 else if a == 2 then 72 else 0;
}

abbrev ends_12 : Ends
ends_12 = record { head = 1; tail = 2 }

nodes-IsChain : IsChain nodes ends_12 ((1, 71) ∷ (2, 72) ∷ [])
nodes-IsChain = record {
  no_null = refl;
  head = refl;
  tail = refl;
  cells = ((refl, refl, refl, refl), ((refl, refl, refl, refl), tt));
  distinct = ((omega arith, tt), (tt, tt));
}

nodes-IsFresh : IsFresh nodes 3
nodes-IsFresh = record { unused = refl; nonnull = omega arith }

abbrev pool_12 : PoolList
pool_12 = record { ends = ends_12; size = 2 }

-- The second attempt at the mutex gets it.
abbrev attempt : Bool → Attempt
attempt held = record { held = held; ends = ends_12; nodes = nodes }
