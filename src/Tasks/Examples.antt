-- ===== src/Tasks/Examples.antt =====
-- Tests of src/b_task.hh and src/b_task.cc on a store with two lists.
use b_routine.Base.{
  ◌≡◌, refl, inl, inr, true, false, ◌||◌, [], ◌∷◌, some, arith, ◌==◌, if◌then◌else◌,
}
use b_routine.Tasks.{
  Store, push_back_unsafe, remove_self_from_ownerlink, new_item, new_list, delete_item,
}
use b_routine.Tasks.Segment.{IsLinked, IsList, IsDetached}
use b_routine.Tasks.Push.{PushFrame, push_back_unsafe-append}
use b_routine.Tasks.Unlink.{Removed}
use b_routine.Tasks.Remove.{remove_self_from_ownerlink-Removed}
use b_routine.Tasks.Pop.{remove_self_from_ownerlink-stale}
use b_routine.Tasks.Queue.{
  push_call, pop_call, queue_one, queue_all, call_all, Represents, call_all-queue_all,
}
use b_routine.Tasks.Locked.{push_back, remove_self_from_ownerlink_save, push_all_to, delete_list}
use b_routine.Tasks.Locked.Alone.{
  Unlocked, remove_self_from_ownerlink_save-unlocked, push_back-append,
}
use b_routine.Tasks.Locked.Drain.{push_all_to-append}
use b_routine.Tasks.Locked.Delete.{Frees, delete_list-Frees}

-- The list at 10 links the items 1 and 2, the list at 20 the item 4; the item 3 is in no list.
abbrev store : Store
store = record {
  live = λ a. (a == 1) || ((a == 2) || ((a == 3) || ((a == 4) || ((a == 10) || (a == 20)))));
  prev = λ a. if a == 2 then 1 else 0;
  next = λ a. if a == 1 then 2 else 0;
  owner = λ a. if a == 4 then 20 else if a == 1 then 10 else if a == 2 then 10 else 0;
  head = λ a. if a == 10 then 1 else if a == 20 then 4 else 0;
  tail = λ a. if a == 10 then 2 else if a == 20 then 4 else 0;
  item_count = λ a. if a == 10 then 2 else if a == 20 then 1 else 0;
  head_mutex = λ a. false;
  tail_mutex = λ a. false;
}

store-IsLinked : IsLinked store 10 (1 ∷ 2 ∷ [])
store-IsLinked = record {
  alive = refl;
  no_null = refl;
  head = refl;
  tail = refl;
  items = ((refl, refl, refl, refl), ((refl, refl, refl, refl), tt));
  distinct = ((omega arith, tt), (tt, tt));
}

store-IsList : IsList store 10 (1 ∷ 2 ∷ [])
store-IsList = record { linked = store-IsLinked; count = refl }

store-IsList_other : IsList store 20 (4 ∷ [])
store-IsList_other = record {
  linked = record {
    alive = refl;
    no_null = refl;
    head = refl;
    tail = refl;
    items = ((refl, refl, refl, refl), tt);
    distinct = (tt, tt);
  };
  count = refl;
}

store-IsDetached : IsDetached store 3
store-IsDetached = record { alive = refl; no_prev = refl; no_next = refl }

push_back_unsafe-append_example :
    (t : Store) × (push_back_unsafe 10 3 store ≡ some (tt, t))
    × IsList t 10 (1 ∷ 2 ∷ 3 ∷ [])
    × PushFrame store t 10 3 (1 ∷ 2 ∷ [])
push_back_unsafe-append_example =
    push_back_unsafe-append store 10 3 (1 ∷ 2 ∷ []) store-IsList store-IsDetached
      (omega arith, (omega arith, tt)) (omega arith)

remove_self_from_ownerlink-Removed_example :
    (t : Store) × (remove_self_from_ownerlink 1 store ≡ some (1, t))
    × Removed store t 10 1 (1 ∷ 2 ∷ []) (2 ∷ [])
remove_self_from_ownerlink-Removed_example =
    remove_self_from_ownerlink-Removed store 10 1 [] (2 ∷ []) store-IsLinked

remove_self_from_ownerlink-stale_example :
    (t : Store) × (remove_self_from_ownerlink 2 store ≡ some (2, t))
    × IsLinked t 10 (1 ∷ [])
    × (t.item_count 10 ≡ 2)
remove_self_from_ownerlink-stale_example =
    remove_self_from_ownerlink-stale store 10 2 (1 ∷ []) [] store-IsList

remove_self_from_ownerlink_save-unlocked_example :
    remove_self_from_ownerlink_save 2 store ≡ remove_self_from_ownerlink 2 store
remove_self_from_ownerlink_save-unlocked_example =
    remove_self_from_ownerlink_save-unlocked store 2 10 refl refl refl refl refl

push_back-append_example :
    (t : Store) × (push_back 1 10 3 store ≡ some (tt, t))
    × IsList t 10 (1 ∷ 2 ∷ 3 ∷ [])
    × Unlocked t 10
push_back-append_example =
    push_back-append 0 store 10 3 (1 ∷ 2 ∷ []) store-IsList (refl, refl) store-IsDetached
      (omega arith, (omega arith, tt)) (omega arith)

push_all_to-append_example :
    (t : Store) × (push_all_to 3 10 20 store ≡ some (tt, t))
    × IsList t 10 []
    × IsList t 20 (4 ∷ 1 ∷ 2 ∷ [])
    × Unlocked t 10
    × Unlocked t 20
push_all_to-append_example =
    push_all_to-append (1 ∷ 2 ∷ []) (4 ∷ []) 3 store 10 20 store-IsList store-IsList_other
      (omega arith)
      (
        (λ z h. elim h [
          | inl e ↦ (omega (arith, e), tt)
          | inr (inl e) ↦ (omega (arith, e), tt)
          | inr (inr e) ↦ absurd e
        ]),
        (λ z h. elim h [ inl e ↦ (omega (arith, e), (omega (arith, e), tt)) | inr e ↦ absurd e ]),
      )
      (refl, refl) (refl, refl) (omega arith) (omega arith)

delete_list-Frees_example :
    (t : Store) × (delete_list 3 10 store ≡ some (tt, t)) × Frees store t (10 ∷ 1 ∷ 2 ∷ [])
delete_list-Frees_example =
    delete_list-Frees 3 store 10 (1 ∷ 2 ∷ []) store-IsLinked (omega arith, (omega arith, tt))
      (refl, refl) (omega arith)

-- A new item is detached and lives until it is deleted; a new list is empty.
new_item-runs :
    (s : Store) × (new_item 5 store ≡ some (5, s))
    × IsDetached s 5
    × ((t : Store) × (delete_item 5 s ≡ some (tt, t)) × (t.live 5 ≡ false))
unfolding new_item delete_item
new_item-runs =
    let s : Store = record store {
      live = λ a. if a == 5 then true else store.live a;
      prev = λ a. if a == 5 then 0 else store.prev a;
      next = λ a. if a == 5 then 0 else store.next a;
      owner = λ a. if a == 5 then 0 else store.owner a;
    } in
    (
      s,
      refl,
      record { alive = refl; no_prev = refl; no_next = refl },
      (record s { live = λ a. if a == 5 then false else s.live a }, refl, refl),
    )

new_list-runs : (s : Store) × (new_list 30 store ≡ some (30, s)) × IsList s 30 []
unfolding new_list
new_list-runs = (
  record store {
    live = λ a. if a == 30 then true else store.live a;
    head = λ a. if a == 30 then 0 else store.head a;
    tail = λ a. if a == 30 then 0 else store.tail a;
    item_count = λ a. if a == 30 then 0 else store.item_count a;
    head_mutex = λ a. if a == 30 then false else false;
    tail_mutex = λ a. if a == 30 then false else false;
  },
  refl,
  record {
    linked = record {
      alive = refl;
      no_null = refl;
      head = refl;
      tail = refl;
      items = tt;
      distinct = tt;
    };
    count = refl;
  },
)

store-Represents : Represents store 10 (record { items = 1 ∷ 2 ∷ []; idle = λ a. a == 3 })
store-Represents = record {
  is_list = store-IsList;
  idle = λ a h.
      let e : a ≡ 3 = ground arith in rw e (store-IsDetached, (omega arith, (omega arith, tt)));
}

call_all-queue_all_example :
    (t : Store) × (call_all 10 (pop_call ∷ push_call 3 ∷ push_call 1 ∷ pop_call ∷ []) store
      ≡ some (1 ∷ 0 ∷ 0 ∷ 2 ∷ [], t))
    × Represents t 10 (record {
      items = 3 ∷ 1 ∷ [];
      idle = λ a.
          if a == 2
          then true
          else if a == 1
          then false
          else if a == 3
          then false
          else if a == 1
          then true
          else a == 3;
    })
unfolding queue_all queue_one
call_all-queue_all_example =
    call_all-queue_all (pop_call ∷ push_call 3 ∷ push_call 1 ∷ pop_call ∷ []) store 10
      (record { items = 1 ∷ 2 ∷ []; idle = λ a. a == 3 })
      (record {
        items = 3 ∷ 1 ∷ [];
        idle = λ a.
            if a == 2
            then true
            else if a == 1
            then false
            else if a == 3
            then false
            else if a == 1
            then true
            else a == 3;
      })
      (1 ∷ 0 ∷ 0 ∷ 2 ∷ []) store-Represents (omega arith) refl
