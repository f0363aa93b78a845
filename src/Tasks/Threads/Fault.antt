-- ===== src/Tasks/Threads/Fault.antt =====
-- A schedule on which `pushBack` of src/b_task.cc uses a null pointer. It counts its item before it
-- links it, so a `popHead` that comes between the two finds 2 where one item is linked, leaves the
-- mutex of the tail alone, and takes the last item out under it.
use b_routine.Base.{◌≡◌, ◌≢◌, refl, Bool, true, false, [], ◌∷◌, arith}
use b_routine.Tasks.{
  Ptr, null, update, Store, put_prev, put_next, put_owner, put_head, put_tail, increment, decrement,
}
use b_routine.Tasks.Segment.{IsList}
use b_routine.Tasks.Locked.Alone.{Unlocked}
use b_routine.Tasks.Threads.{
  begin, want_tail, check, count_up, test, link_next, start, lock_head, look, probe, count_down,
  take, clear_head, clear_tail, cut_prev, move_head, drop_next, drop_owner, unlock_head, popped,
  faults, hold_head, hold_tail, push_step, take_step, pop_step, system, PopPc, push_moves,
  pop_moves, Reach, here, ◌▸◌, again,
}

-- What the schedule needs of a store: a list at `l` of `x` and `y`, that nobody uses.
record IsPair (s : Store) (l x y : Ptr) : Type 0 where
  no_null : s.live null ≡ false
  live_y : s.live y ≡ true
  live_x : s.live x ≡ true
  apart : y ≢ x
  list : l ≢ null
  head : s.head l ≡ x
  tail : s.tail l ≡ y
  next : s.next x ≡ y
  owner_x : s.owner x ≡ l
  owner_y : s.owner y ≡ l
  count : s.item_count l ≡ 2
  head_free : s.head_mutex l ≡ false
  tail_free : s.tail_mutex l ≡ false

module _ (l i x y : Ptr) (s : Store) (v : IsPair s l x y) (new : i ≢ null) where
  -- The pusher has the mutex of the tail; the popper has taken `x`; the pusher has counted; the popper
  -- has emptied the list.
  abbrev at_count : Store
  at_count = hold_tail s l true

  abbrev taken : Store
  taken =
      put_owner
        (put_next (put_head (put_prev (decrement (hold_head at_count l true) l) y null) l y) x null)
        x null

  abbrev counted : Store
  counted = increment (hold_head taken l false) l

  abbrev emptied : Store
  emptied = put_tail (put_head (decrement (hold_head counted l true) l) l null) l null

  reach_count : Reach l i (system begin start s) (system (count_up false) start at_count)
  unfolding push_step
  reach_count =
      let c = v.count in
      let f = v.tail_free in
      here
      ▸ push_moves {p' = want_tail false} {t = s} (ground arith)
      ▸ push_moves {p' = check false} {t = at_count} (ground arith)
      ▸ push_moves (ground arith)

  reach_probe :
      Reach l i
        (system begin start s)
        (system (count_up false) (count_down false) (hold_head at_count l true))
  unfolding pop_step
  reach_probe =
      let c = v.count in
      let f = v.head_free in
      let h = v.head in
      let t = v.tail in
      let n = v.no_null in
      let a = v.live_x in
      let b = v.live_y in
      reach_count
      ▸ pop_moves {q' = lock_head} {t = at_count} (ground arith)
      ▸ pop_moves {q' = look} {t = hold_head at_count l true} (ground arith)
      ▸ pop_moves {q' = probe false} {t = hold_head at_count l true} (ground arith)
      ▸ pop_moves (ground arith)

  reach_cut :
      Reach l i
        (system begin start s)
        (system (count_up false) (cut_prev false x) (decrement (hold_head at_count l true) l))
  unfolding pop_step take_step
  reach_cut =
      let h = v.head in
      let t = v.tail in
      let o = v.owner_x in
      let a = v.live_x in
      let d = v.apart in
      let e = v.list in
      let n = v.no_null in
      reach_probe
      ▸ pop_moves {q' = take false} {t = decrement (hold_head at_count l true) l} refl
      ▸ pop_moves (ground arith)

  reach_taken :
      Reach l i (system begin start s) (system (count_up false) (unlock_head false x) taken)
  unfolding pop_step
  reach_taken =
      let cut = put_prev (decrement (hold_head at_count l true) l) y null in
      let n = v.next in
      let o = v.owner_x in
      let b = v.live_y in
      reach_cut
      ▸ pop_moves {q' = move_head false x} {t = cut} (rw n (ground arith))
      ▸ pop_moves {q' = drop_next false x} {t = put_head cut l y} (rw (n, o) refl)
      ▸ pop_moves {q' = drop_owner false x} refl
      ▸ pop_moves refl

  reach_counted : Reach l i (system begin start s) (system (link_next false) start counted)
  unfolding push_step pop_step
  reach_counted =
      let t = v.tail in
      let n = v.no_null in
      let b = v.live_y in
      let c = v.count in
      again (reach_taken ▸ pop_moves {q' = popped x} {t = hold_head taken l false} refl)
      ▸ push_moves {p' = test false} {t = counted} (ground arith)
      ▸ push_moves (ground arith)

  reach_emptied :
      Reach l i (system begin start s) (system (link_next false) (drop_next false y) emptied)
  unfolding pop_step take_step
  reach_emptied =
      let c = v.count in
      let f = v.head_free in
      let t = v.tail in
      let n = v.no_null in
      let b = v.live_y in
      let o = v.owner_y in
      let e = v.list in
      let d = v.apart in
      let held = hold_head counted l true in
      let down = decrement held l in
      let own : update s.owner x null y ≡ l = ground arith in
      let down' = put_head down l null in
      reach_counted
      ▸ pop_moves {q' = lock_head} {t = counted} (ground arith)
      ▸ pop_moves {q' = look} {t = held} (ground arith)
      ▸ pop_moves {q' = probe false} {t = held} (ground arith)
      ▸ pop_moves {q' = count_down false} {t = held} (ground arith)
      ▸ pop_moves {q' = take false} {t = down} refl
      ▸ pop_moves {q' = clear_head false y} {t = down} (ground arith)
      ▸ pop_moves {q' = clear_tail false y} {t = down'} (rw own refl)
      ▸ pop_moves (rw own refl)

-- A list links and counts two items, its mutexes are free, and the item to push is not the null
-- pointer. There is a schedule of a thread in `pushBack` and a thread that calls `popHead` twice after
-- which the pusher's next statement, `this->tail->next = i`, uses a null or freed pointer.
pub push_back-faults :
    (s : Store) (l i x y : Ptr)
    → IsList s l (x ∷ y ∷ [])
    → Unlocked s l
    → i ≢ null
    → (lh : Bool) × (q : PopPc) × (t : Store) × Reach l i
        (system begin start s)
        (system (link_next lh) q t)
      × (push_step l i (link_next lh) t ≡ faults)
unfolding push_step
push_back-faults s l i x y v (f, g) new =
    let w = v.linked in
    let d = w.distinct in
    let n = w.no_null in
    let a = w.alive in
    let pair : IsPair s l x y = record {
      no_null = n;
      live_y = w.items.1.0.3;
      live_x = w.items.0.3;
      apart = ground arith;
      list = ground arith;
      head = w.head;
      tail = w.tail;
      next = w.items.0.1;
      owner_x = w.items.0.2;
      owner_y = w.items.1.0.2;
      count = v.count;
      head_free = f;
      tail_free = g;
    } in
    (
      false,
      drop_next false y,
      emptied l i x y s pair new,
      reach_emptied l i x y s pair new,
      ground arith,
    )
