-- ===== src/Tasks/Threads/Waits.antt =====
-- Where a thread in `pushBack` or `popHead` (src/b_task.cc) waits, and where it has returned.
use b_routine.Base.{◌≡◌, ◌⊎◌, inl, inr, refl, Bool, true, false, arith, some, Option, none}
use b_routine.Tasks.{Ptr, Store, remove_self_from_ownerlink}
use b_routine.Tasks.Threads.{
  PushPc, begin, want_head, want_tail, check, count_up, test, first_head, first_tail, link_next,
  link_prev, move_tail, clear_next, own, release_head, release_tail, pushed, PopPc, start,
  lock_head, look, lock_tail, probe, count_down, take, clear_head, clear_tail, cut_prev, move_head,
  drop_next, drop_owner, unlock_head, unlock_tail, popped, waits, returned, push_step, pop_step,
  take_step,
}
use b_routine.Tasks.Threads.Locks.{Held, pusher_head, pusher_tail, popper_head, popper_tail}

-- The pusher waits only at a mutex that the popper holds.
pub push-waits :
    (l i : Ptr) (p : PushPc) (c d : Bool) (s : Store)
    → push_step l i p s ≡ waits
    → Held l s (pusher_head p) (pusher_tail p) c d
    → (pusher_tail p ≡ false) × (((p ≡ want_head) × (c ≡ true)) ⊎ (d ≡ true))
unfolding push_step pusher_head pusher_tail
push-waits l i begin c d s e v = absurd (ground arith)
push-waits l i want_head c d s e v = (refl, inl (refl, ground arith))
push-waits l i (want_tail lh) c d s e v = (refl, inr (ground arith))
push-waits l i (check lh) c d s e v = absurd (ground arith)
push-waits l i (count_up lh) c d s e v = absurd (ground arith)
push-waits l i (test lh) c d s e v = absurd (ground arith)
push-waits l i (first_head lh) c d s e v = absurd (ground arith)
push-waits l i (first_tail lh) c d s e v = absurd (ground arith)
push-waits l i (link_next lh) c d s e v = absurd (ground arith)
push-waits l i (link_prev lh) c d s e v = absurd (ground arith)
push-waits l i (move_tail lh) c d s e v = absurd (ground arith)
push-waits l i (clear_next lh) c d s e v = absurd (ground arith)
push-waits l i (own lh) c d s e v = absurd (ground arith)
push-waits l i (release_head lh) c d s e v = absurd (ground arith)
push-waits l i release_tail c d s e v = absurd (ground arith)
push-waits l i pushed c d s e v = absurd (ground arith)

-- A removal neither waits nor returns.
take_step-acts :
    (lt : Bool) (h : Ptr) (s : Store)
    → (take_step lt h s ≡ waits) ⊎ (take_step lt h s ≡ returned)
    → ⊥
unfolding take_step
take_step-acts lt h s e = at (remove_self_from_ownerlink h s) refl e
  where
    at :
        (o : Option (Ptr × Store))
        → remove_self_from_ownerlink h s ≡ o
        → (take_step lt h s ≡ waits) ⊎ (take_step lt h s ≡ returned)
        → ⊥
    at none k (inl e) = ground arith
    at none k (inr e) = ground arith
    at (some (r, s')) k (inl e) = ground arith
    at (some (r, s')) k (inr e) = ground arith

-- ... and the popper only at one that the pusher holds.
pub pop-waits :
    (l : Ptr) (q : PopPc) (a b : Bool) (s : Store)
    → pop_step l q s ≡ waits
    → Held l s a b (popper_head q) (popper_tail q)
    → (popper_tail q ≡ false) × (((popper_head q ≡ false) × (a ≡ true)) ⊎ (b ≡ true))
unfolding pop_step popper_head popper_tail
pop-waits l start a b s e v = absurd (ground arith)
pop-waits l lock_head a b s e v = (refl, inl (refl, ground arith))
pop-waits l look a b s e v = absurd (ground arith)
pop-waits l lock_tail a b s e v = (refl, inr (ground arith))
pop-waits l (probe lt) a b s e v = absurd (ground arith)
pop-waits l (count_down lt) a b s e v = absurd (ground arith)
pop-waits l (take lt) a b s e v = absurd (take_step-acts lt (s.head l) s (inl e))
pop-waits l (clear_head lt r) a b s e v = absurd (ground arith)
pop-waits l (clear_tail lt r) a b s e v = absurd (ground arith)
pop-waits l (cut_prev lt r) a b s e v = absurd (ground arith)
pop-waits l (move_head lt r) a b s e v = absurd (ground arith)
pop-waits l (drop_next lt r) a b s e v = absurd (ground arith)
pop-waits l (drop_owner lt r) a b s e v = absurd (ground arith)
pop-waits l (unlock_head lt r) a b s e v = absurd (ground arith)
pop-waits l (unlock_tail r) a b s e v = absurd (ground arith)
pop-waits l (popped r) a b s e v = absurd (ground arith)

pub push-returned : (l i : Ptr) (p : PushPc) (s : Store) → push_step l i p s ≡ returned → p ≡ pushed
unfolding push_step
push-returned l i begin s e = absurd (ground arith)
push-returned l i want_head s e = absurd (ground arith)
push-returned l i (want_tail lh) s e = absurd (ground arith)
push-returned l i (check lh) s e = absurd (ground arith)
push-returned l i (count_up lh) s e = absurd (ground arith)
push-returned l i (test lh) s e = absurd (ground arith)
push-returned l i (first_head lh) s e = absurd (ground arith)
push-returned l i (first_tail lh) s e = absurd (ground arith)
push-returned l i (link_next lh) s e = absurd (ground arith)
push-returned l i (link_prev lh) s e = absurd (ground arith)
push-returned l i (move_tail lh) s e = absurd (ground arith)
push-returned l i (clear_next lh) s e = absurd (ground arith)
push-returned l i (own lh) s e = absurd (ground arith)
push-returned l i (release_head lh) s e = absurd (ground arith)
push-returned l i release_tail s e = absurd (ground arith)
push-returned l i pushed s e = refl

pub pop-returned :
    (l : Ptr) (q : PopPc) (s : Store) → pop_step l q s ≡ returned → (r : Ptr) × (q ≡ popped r)
unfolding pop_step
pop-returned l start s e = absurd (ground arith)
pop-returned l lock_head s e = absurd (ground arith)
pop-returned l look s e = absurd (ground arith)
pop-returned l lock_tail s e = absurd (ground arith)
pop-returned l (probe lt) s e = absurd (ground arith)
pop-returned l (count_down lt) s e = absurd (ground arith)
pop-returned l (take lt) s e = absurd (take_step-acts lt (s.head l) s (inr e))
pop-returned l (clear_head lt r) s e = absurd (ground arith)
pop-returned l (clear_tail lt r) s e = absurd (ground arith)
pop-returned l (cut_prev lt r) s e = absurd (ground arith)
pop-returned l (move_head lt r) s e = absurd (ground arith)
pop-returned l (drop_next lt r) s e = absurd (ground arith)
pop-returned l (drop_owner lt r) s e = absurd (ground arith)
pop-returned l (unlock_head lt r) s e = absurd (ground arith)
pop-returned l (unlock_tail r) s e = absurd (ground arith)
pop-returned l (popped r) s e = (r, refl)
