-- ===== src/Tasks/Queue.antt =====
-- The calls of `pushBackUnsafe` and `popHeadUnsafe` of src/b_task.cc on one list, in sequence, and the
-- queue of items that the list stands for.
use b_routine.Base.{
  ℕ, ◌+◌, ◌<◌, ◌≡◌, refl, sym, ◌∙◌, ◌≢◌, Bool, true, false, inl, inr, List, [], ◌∷◌, ◌++◌, NotIn,
  NotIn-append, ◌⊎◌, ◌≤◌, Bool-cases, subst, Option, none, some, arith, length, length-append,
  ne_of_NotIn, ◌==◌, if◌then◌else◌,
}
use b_routine.Tasks.{
  Ptr, null, u32, Store, pure, ◌>>=◌, ◌>>◌, Cmd, and_then, decrement, push_back_unsafe,
  pop_head_unsafe,
}
use b_routine.Tasks.Segment.{last_or, Same, IsList, IsDetached}
use b_routine.Tasks.Unlink.{Removed, In-last_or}
use b_routine.Tasks.Push.{push_back_unsafe-append}
use b_routine.Tasks.Pop.{pop_head_unsafe-PopsTo}

pub data ListCall : Type 0 where
  push_call : (item : Ptr) → ListCall
  pop_call : ListCall

-- A call, with the pointer that a pop returns; a push returns none.
pub call_one : Ptr → ListCall → Cmd Ptr
call_one l (push_call i) = do push_back_unsafe l i; pure null
call_one l pop_call = pop_head_unsafe l

pub call_all : Ptr → List ListCall → Cmd (List Ptr)
unfolding call_one
call_all l [] = pure []
call_all l (c ∷ cs) = do r ← call_one l c; rs ← call_all l cs; pure (r ∷ rs)

-- The abstract queue: its items, oldest first, and the items at hand that are in no list.
pub record ItemQueue : Type 0 where
  pub items : List Ptr
  pub idle : Ptr → Bool

abbrev set_idle : (Ptr → Bool) → Ptr → Bool → Ptr → Bool
set_idle f i b a = if a == i then b else f a

-- A push is allowed of an idle item only.
unfoldable pub queue_one : ListCall → ItemQueue → Option (Ptr × ItemQueue)
queue_one (push_call i) q =
    if q.idle i
    then some (null, record { items = q.items ++ i ∷ []; idle = set_idle q.idle i false })
    else none
queue_one pop_call q = elim q.items [
  | [] ↦ some (null, q)
  | x ∷ xs ↦ some (x, record { items = xs; idle = set_idle q.idle x true })
]

abbrev answered :
    Option (Ptr × ItemQueue)
    → (ItemQueue → Option (List Ptr × ItemQueue))
    → Option (List Ptr × ItemQueue)
answered none k = none
answered (some (r, q)) k = elim (k q) [ none ↦ none | some (rs, q') ↦ some (r ∷ rs, q') ]

unfoldable pub queue_all : List ListCall → ItemQueue → Option (List Ptr × ItemQueue)
unfolding queue_one
queue_all [] q = some ([], q)
queue_all (c ∷ cs) q = answered (queue_one c q) (queue_all cs)

-- The list at `l` stands for the queue.
pub record Represents (s : Store) (l : Ptr) (q : ItemQueue) : Type 0 where
  pub is_list : IsList s l q.items
  pub idle : (a : Ptr) → q.idle a ≡ true → IsDetached s a × NotIn a q.items

IsDetached-Same : (s t : Store) (a : Ptr) → Same s t a → IsDetached s a → IsDetached t a
IsDetached-Same s t a (p, n, o, v) d = record {
  alive = v ∙ d.alive;
  no_prev = p ∙ d.no_prev;
  no_next = n ∙ d.no_next;
}

-- An item outside the list is not its last item.
ne-last_or :
    (s : Store) (a : Ptr) (xs : List Ptr)
    → s.live null ≡ false
    → s.live a ≡ true
    → NotIn a xs
    → a ≢ last_or null xs
ne-last_or s a [] z v n = ground arith
ne-last_or s a (x ∷ xs) z v n = λ e. ne_of_NotIn (x ∷ xs) n (In-last_or x xs) (sym e)

no_longer_idle : (f : Ptr → Bool) (i a : Ptr) → set_idle f i false a ≡ true → (a ≢ i) × (f a ≡ true)
no_longer_idle f i a h = ground arith

idle_again : (f : Ptr → Bool) (i a : Ptr) → set_idle f i true a ≡ true → (a ≡ i) ⊎ (f a ≡ true)
idle_again f i a h = ground arith

push-Represents :
    (s : Store) (l i : Ptr) (q : ItemQueue)
    → Represents s l q
    → q.idle i ≡ true
    → length q.items + 1 < u32
    → (t : Store) × (push_back_unsafe l i s ≡ some (tt, t))
      × Represents t l (record { items = q.items ++ i ∷ []; idle = set_idle q.idle i false })
push-Represents s l i q v free room =
    let (d, new) = v.idle i free in
    let (t, e, at_l, frame) = push_back_unsafe-append s l i q.items v.is_list d new room in
    (
      t,
      e,
      record {
        is_list = at_l;
        idle = λ a h.
            let (other, h') = no_longer_idle q.idle i a h in
            let (d', out) = v.idle a h' in
            let end = ne-last_or s a q.items v.is_list.linked.no_null d'.alive out in
            (
              IsDetached-Same s t a (frame.items a other end) d',
              NotIn-append a q.items (i ∷ []) out (other, tt),
            );
      },
    )

pop-Represents :
    (s t : Store) (l x : Ptr) (xs : List Ptr) (idle : Ptr → Bool)
    → Represents s l (record { items = x ∷ xs; idle = idle })
    → IsList t l xs
    → Removed (decrement s l) t l x (x ∷ xs) xs
    → Represents t l (record { items = xs; idle = set_idle idle x true })
pop-Represents s t l x xs idle v at_l r = record {
  is_list = at_l;
  idle = λ a h. elim (idle_again idle x a h) [
    | inl e ↦ rw e (r.detached, v.is_list.linked.distinct.0)
    | inr h' ↦
        let (d, out) = v.idle a h' in
        (
          IsDetached-Same (decrement s l) t a (r.others a out)
              (record { alive = d.alive; no_prev = d.no_prev; no_next = d.no_next }),
          out.1,
        )
  ];
}

-- Where the queue allows a call, the list answers the same, and stands for the queue that is left.
abbrev Simulates : {A : Type 0} → Ptr → Option (A × ItemQueue) → Option (A × Store) → Type 0
Simulates l none res = Unit {0}
Simulates l (some (r, q)) res = (t : Store) × (res ≡ some (r, t)) × Represents t l q

abbrev GrowsTo : ℕ → Option (Ptr × ItemQueue) → Type 0
GrowsTo n none = Unit {0}
GrowsTo n (some (r, q)) = length q.items ≤ n

abbrev queue_of : List Ptr → (Ptr → Bool) → ItemQueue
queue_of xs f = record { items = xs; idle = f }

pop-GrowsTo :
    (xs : List Ptr) (f : Ptr → Bool) → GrowsTo (length xs + 1) (queue_one pop_call (queue_of xs f))
unfolding queue_one
pop-GrowsTo [] f = omega arith
pop-GrowsTo (x ∷ xs) f = omega arith

queue_one-GrowsTo : (c : ListCall) (q : ItemQueue) → GrowsTo (length q.items + 1) (queue_one c q)
unfolding queue_one
queue_one-GrowsTo (push_call i) q =
    let n = length-append q.items (i ∷ []) in
    elim (Bool-cases (q.idle i)) [ inl e ↦ rw e (omega (arith, n)) | inr e ↦ rw e tt ]
queue_one-GrowsTo pop_call q = pop-GrowsTo q.items q.idle

pop-Simulates :
    (s : Store) (l : Ptr) (xs : List Ptr) (f : Ptr → Bool)
    → Represents s l (queue_of xs f)
    → length xs + 1 < u32
    → Simulates l (queue_one pop_call (queue_of xs f)) (pop_head_unsafe l s)
unfolding queue_one
pop-Simulates s l [] f v room = (s, pop_head_unsafe-PopsTo s l [] v.is_list (omega arith), v)
pop-Simulates s l (x ∷ xs) f v room =
    let (t, e, at_l, r) = pop_head_unsafe-PopsTo s l (x ∷ xs) v.is_list (omega arith) in
    (t, e, pop-Represents s t l x xs f v at_l r)

call_one-Simulates :
    (c : ListCall) (s : Store) (l : Ptr) (q : ItemQueue)
    → Represents s l q
    → length q.items + 1 < u32
    → Simulates l (queue_one c q) (call_one l c s)
unfolding queue_one call_one
call_one-Simulates (push_call i) s l q v room = elim (Bool-cases (q.idle i)) [
  | inl free ↦ let (t, e, v') = push-Represents s l i q v free room in rw free (t, rw e refl, v')
  | inr taken ↦ rw taken tt
]
call_one-Simulates pop_call s l q v room = pop-Simulates s l q.items q.idle v room

call_all-Simulates :
    (cs : List ListCall) (s : Store) (l : Ptr) (q : ItemQueue)
    → Represents s l q
    → length q.items + length cs < u32
    → Simulates l (queue_all cs q) (call_all l cs s)
unfolding queue_all call_all
call_all-Simulates [] s l q v room = (s, refl, v)
call_all-Simulates (c ∷ cs) s l q v room =
    after (queue_one c q) (queue_one-GrowsTo c q) (call_one-Simulates c s l q v (omega arith))
      (λ t q' v' b. call_all-Simulates cs t l q' v' (omega arith))
  where
    with_first :
        (r : Ptr) (o : Option (List Ptr × ItemQueue)) (res : Option (List Ptr × Store))
        → Simulates l o res
        → Simulates l
            (elim o [ none ↦ none | some (rs, q') ↦ some (r ∷ rs, q') ])
            (and_then res (λ rs. pure (r ∷ rs)))
    with_first r none res h = tt
    with_first r (some (rs, q')) res (t, e, v') = (t, rw e refl, v')

    after :
        (o : Option (Ptr × ItemQueue))
        → GrowsTo (length q.items + 1) o
        → Simulates l o (call_one l c s)
        → ((t : Store) (q' : ItemQueue)
            → Represents t l q'
            → length q'.items ≤ length q.items + 1
            → Simulates l (queue_all cs q') (call_all l cs t))
        → Simulates l (answered o (queue_all cs)) (call_all l (c ∷ cs) s)
    after none b h k = tt
    after (some (r, q')) b (t, e, v') k =
        rw e (with_first r (queue_all cs q') (call_all l cs t) (k t q' v' b))

-- A sequence of pushes and pops on one list answers what the abstract queue answers: each push
-- appends its item, which must be idle, and each pop takes the oldest item, which is idle from then
-- on, or returns null from an empty queue. The list stands for the queue again at the end. The queue
-- allows the sequence, and fewer than 2^32 items can come to be in the list.
pub call_all-queue_all :
    (cs : List ListCall) (s : Store) (l : Ptr) (q q' : ItemQueue) (rs : List Ptr)
    → Represents s l q
    → length q.items + length cs < u32
    → queue_all cs q ≡ some (rs, q')
    → (t : Store) × (call_all l cs s ≡ some (rs, t)) × Represents t l q'
call_all-queue_all cs s l q q' rs v room e =
    subst (λ o. Simulates l o (call_all l cs s)) e (call_all-Simulates cs s l q v room)
