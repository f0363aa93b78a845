-- ===== src/Tasks/Threads/Examples.antt =====
-- Tests of the two threads on a `TaskItemsList` of src/b_task.cc.
use b_routine.Base.{
  ◌≤◌, ◌≡◌, refl, ◌⊎◌, Bool, true, false, ◌||◌, [], ◌∷◌, some, arith, ◌==◌, if◌then◌else◌,
}
use b_routine.Tasks.{
  Ptr, Store, pure, ◌>>=◌, ◌>>◌, put_prev, put_next, put_owner, put_head, put_tail, increment,
  decrement,
}
use b_routine.Tasks.Segment.{IsList, IsDetached}
use b_routine.Tasks.Locked.{push_back, pop_head}
use b_routine.Tasks.Threads.{
  here, ◌▸◌, begin, want_head, waits, link_next, move_tail, pushed, PopPc, start, take, popped,
  faults, take_step, push_step, pop_step, system, push_moves, pop_moves, Reach, Once, at_start, ◌▷◌,
  hold_head, hold_tail,
}
use b_routine.Tasks.Threads.Deadlock.{Acts, Reach-Acts}
use b_routine.Tasks.Threads.Overlap.{MovesOn, steps}
use b_routine.Tasks.Threads.Sequence.{overlap-sequence, overlap-goes}
use b_routine.Tasks.Threads.Fault.{push_back-faults}

-- The list at 10 links the items 1 and 2; the item 3 is in no list.
abbrev two : Store
two = record {
  live = λ a. (a == 1) || ((a == 2) || ((a == 3) || (a == 10)));
  prev = λ a. if a == 2 then 1 else 0;
  next = λ a. if a == 1 then 2 else 0;
  owner = λ a. if a == 1 then 10 else if a == 2 then 10 else 0;
  head = λ a. if a == 10 then 1 else 0;
  tail = λ a. if a == 10 then 2 else 0;
  item_count = λ a. if a == 10 then 2 else 0;
  head_mutex = λ a. false;
  tail_mutex = λ a. false;
}

two-IsList : IsList two 10 (1 ∷ 2 ∷ [])
two-IsList = record {
  linked = record {
    alive = refl;
    no_null = refl;
    head = refl;
    tail = refl;
    items = ((refl, refl, refl, refl), ((refl, refl, refl, refl), tt));
    distinct = ((omega arith, tt), (tt, tt));
  };
  count = refl;
}

two-IsDetached : IsDetached two 3
two-IsDetached = record { alive = refl; no_prev = refl; no_next = refl }

push_back-faults_example :
    (lh : Bool) × (q : PopPc) × (t : Store) × Reach 10 3
      (system begin start two)
      (system (link_next lh) q t)
    × (push_step 10 3 (link_next lh) t ≡ faults)
push_back-faults_example = push_back-faults two 10 3 1 2 two-IsList (refl, refl) (omega arith)

-- The pusher reads the counter, the popper counts down, and the pusher, which must try again, waits for
-- the mutex of the head.
abbrev half : Store
half = hold_tail (decrement (hold_head (hold_tail two 10 true) 10 true) 10) 10 false

half_run : Once 10 3 (system begin start two) (system want_head (take false) half)
unfolding push_step pop_step take_step
half_run =
    at_start
    ▷ push_moves refl
    ▷ push_moves refl
    ▷ pop_moves refl
    ▷ pop_moves refl
    ▷ pop_moves refl
    ▷ pop_moves refl
    ▷ pop_moves refl
    ▷ push_moves refl
    ▷ push_moves refl

-- The popper returns.
abbrev popped_all : Store
popped_all = hold_head (put_owner (put_next (put_head (put_prev half 2 0) 10 2) 1 0) 1 0) 10 false

popped_all_run : Once 10 3 (system begin start two) (system want_head (popped 1) popped_all)
unfolding push_step pop_step take_step
popped_all_run =
    half_run
    ▷ pop_moves refl
    ▷ pop_moves refl
    ▷ pop_moves refl
    ▷ pop_moves refl
    ▷ pop_moves refl
    ▷ pop_moves refl

-- The pusher goes on under both mutexes.
abbrev linked : Store
linked =
    put_prev (put_next (increment (hold_tail (hold_head popped_all 10 true) 10 true) 10) 2 3) 3 2

linked_run : Once 10 3 (system begin start two) (system (move_tail true) (popped 1) linked)
unfolding push_step pop_step take_step
linked_run =
    popped_all_run
    ▷ push_moves refl
    ▷ push_moves refl
    ▷ push_moves refl
    ▷ push_moves refl
    ▷ push_moves refl
    ▷ push_moves refl
    ▷ push_moves refl

-- ... and returns.
abbrev turns : Store
turns =
    hold_tail (hold_head (put_owner (put_next (put_tail linked 10 3) 3 0) 3 10) 10 false) 10 false

turns_run : Once 10 3 (system begin start two) (system pushed (popped 1) turns)
unfolding push_step pop_step take_step
turns_run =
    linked_run
    ▷ push_moves refl
    ▷ push_moves refl
    ▷ push_moves refl
    ▷ push_moves refl
    ▷ push_moves refl

overlap-sequence_example :
    (◌≡◌ {A = Ptr} 1 1)
    × ((do push_back 1 10 3; pop_head 10) two ≡ some (1, turns))
    × ((do out ← pop_head 10; push_back 1 10 3; pure out) two ≡ some (1, turns))
overlap-sequence_example =
    overlap-sequence two 10 3 1 2 [] two-IsList (refl, refl) two-IsDetached
      (omega arith, (omega arith, tt)) (omega arith) 1 turns turns_run

overlap-goes_example :
    (steps half_run ≤ 27)
    × ((take false ≡ popped 1) ⊎ MovesOn (pop_step 10 (take false) half))
    × ((want_head ≡ pushed)
        ⊎ (MovesOn (push_step 10 3 want_head half)
            ⊎ ((push_step 10 3 want_head half ≡ waits) × MovesOn (pop_step 10 (take false) half))))
overlap-goes_example =
    overlap-goes two 10 3 1 2 [] two-IsList (refl, refl) two-IsDetached
      (omega arith, (omega arith, tt)) (omega arith) want_head (take false) half half_run

-- The bound is met.
turns-steps : steps turns_run ≡ 27
unfolding steps turns_run linked_run popped_all_run half_run
turns-steps = refl

half_reach : Reach 10 3 (system begin start two) (system want_head (take false) half)
unfolding push_step pop_step take_step
half_reach =
    here
    ▸ push_moves refl
    ▸ push_moves refl
    ▸ pop_moves refl
    ▸ pop_moves refl
    ▸ pop_moves refl
    ▸ pop_moves refl
    ▸ pop_moves refl
    ▸ push_moves refl
    ▸ push_moves refl

Reach-Acts_example :
    Acts (push_step 10 3 want_head half)
    ⊎ (Acts (pop_step 10 (take false) half)
        ⊎ ((want_head ≡ pushed) × ((r : Ptr) × (take false ≡ popped r))))
Reach-Acts_example = Reach-Acts two 10 3 (refl, refl) want_head (take false) half half_reach
