-- ===== src/Tasks/Threads/Locks.antt =====
-- The mutexes of a `TaskItemsList` (src/b_task.cc) while one thread pushes and another pops, again and
-- again: who holds them, in any store and at any point of any run.
use b_routine.Base.{
  ◌≡◌, refl, Bool, true, false, ◌&&◌, ◌||◌, not, arith, if◌then◌else◌, some, Option, none,
}
use b_routine.Tasks.{Ptr, Store, remove_self_from_ownerlink}
use b_routine.Tasks.Threads.{
  PushPc, begin, want_head, want_tail, check, count_up, test, first_head, first_tail, link_next,
  link_prev, move_tail, clear_next, own, release_head, release_tail, pushed, PopPc, start,
  lock_head, look, lock_tail, probe, count_down, take, clear_head, clear_tail, cut_prev, move_head,
  drop_next, drop_owner, unlock_head, unlock_tail, popped, goes, push_step, pop_step, take_step,
}

-- Whether the pusher holds the mutex of the head, and that of the tail.
unfoldable pub pusher_head : PushPc → Bool
pusher_head begin = false
pusher_head want_head = false
pusher_head (want_tail lh) = lh
pusher_head (check lh) = lh
pusher_head (count_up lh) = lh
pusher_head (test lh) = lh
pusher_head (first_head lh) = lh
pusher_head (first_tail lh) = lh
pusher_head (link_next lh) = lh
pusher_head (link_prev lh) = lh
pusher_head (move_tail lh) = lh
pusher_head (clear_next lh) = lh
pusher_head (own lh) = lh
pusher_head (release_head lh) = lh
pusher_head release_tail = false
pusher_head pushed = false

unfoldable pub pusher_tail : PushPc → Bool
pusher_tail begin = false
pusher_tail want_head = false
pusher_tail (want_tail lh) = false
pusher_tail (check lh) = true
pusher_tail (count_up lh) = true
pusher_tail (test lh) = true
pusher_tail (first_head lh) = true
pusher_tail (first_tail lh) = true
pusher_tail (link_next lh) = true
pusher_tail (link_prev lh) = true
pusher_tail (move_tail lh) = true
pusher_tail (clear_next lh) = true
pusher_tail (own lh) = true
pusher_tail (release_head lh) = true
pusher_tail release_tail = true
pusher_tail pushed = false

-- ... and the popper.
unfoldable pub popper_head : PopPc → Bool
popper_head start = false
popper_head lock_head = false
popper_head look = true
popper_head lock_tail = true
popper_head (probe lt) = true
popper_head (count_down lt) = true
popper_head (take lt) = true
popper_head (clear_head lt r) = true
popper_head (clear_tail lt r) = true
popper_head (cut_prev lt r) = true
popper_head (move_head lt r) = true
popper_head (drop_next lt r) = true
popper_head (drop_owner lt r) = true
popper_head (unlock_head lt r) = true
popper_head (unlock_tail r) = false
popper_head (popped r) = false

unfoldable pub popper_tail : PopPc → Bool
popper_tail start = false
popper_tail lock_head = false
popper_tail look = false
popper_tail lock_tail = false
popper_tail (probe lt) = lt
popper_tail (count_down lt) = lt
popper_tail (take lt) = lt
popper_tail (clear_head lt r) = lt
popper_tail (clear_tail lt r) = lt
popper_tail (cut_prev lt r) = lt
popper_tail (move_head lt r) = lt
popper_tail (drop_next lt r) = lt
popper_tail (drop_owner lt r) = lt
popper_tail (unlock_head lt r) = lt
popper_tail (unlock_tail r) = true
popper_tail (popped r) = false

-- A mutex is held when one of the threads holds it, and never by both.
abbrev pub agree : Bool → Bool → Bool
agree x y = if x then y else not y

abbrev pub Held : (l : Ptr) (s : Store) (a b c d : Bool) → Type 0
Held l s a b c d =
    (agree (s.head_mutex l) (a || c)
      && (agree (s.tail_mutex l) (b || d) && (not (a && c) && not (b && d))))
    ≡ true

pub push-Held :
    (l i : Ptr) (p p' : PushPc) (c d : Bool) (s t : Store)
    → push_step l i p s ≡ goes p' t
    → Held l s (pusher_head p) (pusher_tail p) c d
    → Held l t (pusher_head p') (pusher_tail p') c d
unfolding push_step pusher_head pusher_tail
push-Held l i begin p' c d s t e v = ground arith
push-Held l i want_head p' c d s t e v = ground arith
push-Held l i (want_tail lh) p' c d s t e v = ground arith
push-Held l i (check lh) p' c d s t e v = ground arith
push-Held l i (count_up lh) p' c d s t e v = ground arith
push-Held l i (test lh) p' c d s t e v = ground arith
push-Held l i (first_head lh) p' c d s t e v = ground arith
push-Held l i (first_tail lh) p' c d s t e v = ground arith
push-Held l i (link_next lh) p' c d s t e v = ground arith
push-Held l i (link_prev lh) p' c d s t e v = ground arith
push-Held l i (move_tail lh) p' c d s t e v = ground arith
push-Held l i (clear_next lh) p' c d s t e v = ground arith
push-Held l i (own lh) p' c d s t e v = ground arith
push-Held l i (release_head lh) p' c d s t e v = ground arith
push-Held l i release_tail p' c d s t e v = ground arith
push-Held l i pushed p' c d s t e v = ground arith

removed :
    (s s' : Store) (i r : Ptr)
    → remove_self_from_ownerlink i s ≡ some (r, s')
    → (s'.head_mutex ≡ s.head_mutex) × (s'.tail_mutex ≡ s.tail_mutex)
unfolding remove_self_from_ownerlink
removed s s' i r e = (ground arith, ground arith)

take_step-keeps :
    (lt : Bool) (h : Ptr) (q : PopPc) (s t : Store)
    → take_step lt h s ≡ goes q t
    → (t.head_mutex ≡ s.head_mutex)
      × (t.tail_mutex ≡ s.tail_mutex)
      × (popper_head q ≡ true)
      × (popper_tail q ≡ lt)
unfolding take_step popper_head popper_tail
take_step-keeps lt h q s t e = at (remove_self_from_ownerlink h s) refl
  where
    at :
        (o : Option (Ptr × Store))
        → remove_self_from_ownerlink h s ≡ o
        → (t.head_mutex ≡ s.head_mutex)
          × (t.tail_mutex ≡ s.tail_mutex)
          × (popper_head q ≡ true)
          × (popper_tail q ≡ lt)
    at none k = (ground arith, ground arith, ground arith, ground arith)
    at (some (r, s')) k =
        let (eh, et) = removed s s' h r k in
        (ground arith, ground arith, ground arith, ground arith)

pub pop-Held :
    (l : Ptr) (q q' : PopPc) (a b : Bool) (s t : Store)
    → pop_step l q s ≡ goes q' t
    → Held l s a b (popper_head q) (popper_tail q)
    → Held l t a b (popper_head q') (popper_tail q')
unfolding pop_step popper_head popper_tail
pop-Held l start q' a b s t e v = ground arith
pop-Held l lock_head q' a b s t e v = ground arith
pop-Held l look q' a b s t e v = ground arith
pop-Held l lock_tail q' a b s t e v = ground arith
pop-Held l (probe lt) q' a b s t e v = ground arith
pop-Held l (count_down lt) q' a b s t e v = ground arith
pop-Held l (take lt) q' a b s t e v =
    let (mh, mt, ph, pt) = take_step-keeps lt (s.head l) q' s t e in ground arith
pop-Held l (clear_head lt r) q' a b s t e v = ground arith
pop-Held l (clear_tail lt r) q' a b s t e v = ground arith
pop-Held l (cut_prev lt r) q' a b s t e v = ground arith
pop-Held l (move_head lt r) q' a b s t e v = ground arith
pop-Held l (drop_next lt r) q' a b s t e v = ground arith
pop-Held l (drop_owner lt r) q' a b s t e v = ground arith
pop-Held l (unlock_head lt r) q' a b s t e v = ground arith
pop-Held l (unlock_tail r) q' a b s t e v = ground arith
pop-Held l (popped r) q' a b s t e v = ground arith
