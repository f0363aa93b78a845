-- ===== src/Tasks/Threads/Sequence.antt =====
-- Whatever the interleaving, a `pushBack` and a `popHead` (src/b_task.cc) on a list of two items or
-- more do what one call after the other does.
use b_routine.Base.{
  false, true, inl, inr, Bool-cases, ℕ, suc, ◌≢◌, ◌+◌, ◌-◌, ◌≤◌, ◌<◌, ◌≡◌, refl, ap, ◌∙◌, ◌⊎◌,
  arith, List, ◌∷◌, some, NotIn, length, ltb,
}
use b_routine.Tasks.{Ptr, u32, Store, pure, ◌>>=◌, ◌>>◌, decrement}
use b_routine.Tasks.Segment.{IsList, IsDetached, last_or}
use b_routine.Tasks.Push.{pushed_behind, push_behind}
use b_routine.Tasks.Pop.{pop_first}
use b_routine.Tasks.Unlink.{left_behind, remove_first}
use b_routine.Tasks.Locked.{push_back, pop_head}
use b_routine.Tasks.Locked.Alone.{
  Unlocked, with_locks, grab, drop_lock, push_back_long, push_back_short, pop_head_long,
}
use b_routine.Tasks.Threads.{
  PushPc, begin, pushed, waits, PopPc, start, popped, push_step, pop_step, system, Once,
}
use b_routine.Tasks.Threads.Overlap.{MovesOn, steps, Once-both, Once-goes}
use b_routine.Tasks.Threads.Setting.{
  IsReady, one, mixed, mixed-start, SameStore, same_store, list-IsReady,
}

module _ (s : Store) (l i x y b : Ptr) (n : ℕ) (v : IsReady s l i x y b n) where
  abbrev both : (k j : ℕ) → Store
  both k j = mixed s l i x y b false k j

  push_many :
      (j : ℕ)
      → ltb ((both 0 j).item_count l) 2 ≡ false
      → push_back 1 l i (both 0 j) ≡ some (tt, both 12 j)
  push_many j many =
      let held = with_locks (both 0 j) (both 0 j).head_mutex (grab (both 0 j).tail_mutex l) in
      let c = v.count in
      let m = v.many in
      let r = v.room in
      let f = v.tail_free in
      let ib = v.i_b in
      let ix = v.i_x in
      let iy = v.i_y in
      let xb = v.x_b in
      let ni = v.next_i in
      let e = push_behind held l i b v.no_null v.live_l v.live_i v.live_b (ground arith) in
      let t = pushed_behind held l b i in
      let u = with_locks t t.head_mutex (drop_lock t.tail_mutex l) in
      let same : SameStore u (both 12 j) = record {
        live = λ a. refl;
        prev = λ a. ground arith;
        next = λ a. ground arith;
        owner = λ a. ground arith;
        head = λ a. refl;
        tail = λ a. ground arith;
        item_count = λ a. ground arith;
        head_mutex = λ a. refl;
        tail_mutex = λ a. ground arith;
      } in
      push_back_long 0 (both 0 j) t l i v.live_l (ground arith) many e
      ∙ ap (λ z. some (tt, z)) (same_store u (both 12 j) same)

  push_few :
      (j : ℕ)
      → (both 0 j).head_mutex l ≡ false
      → ltb ((both 0 j).item_count l) 2 ≡ true
      → push_back 1 l i (both 0 j) ≡ some (tt, both 12 j)
  push_few j idle few =
      let held =
        with_locks (both 0 j) (grab (both 0 j).head_mutex l) (grab (both 0 j).tail_mutex l) in
      let c = v.count in
      let m = v.many in
      let r = v.room in
      let f = v.tail_free in
      let ib = v.i_b in
      let ix = v.i_x in
      let iy = v.i_y in
      let xb = v.x_b in
      let ni = v.next_i in
      let e = push_behind held l i b v.no_null v.live_l v.live_i v.live_b (ground arith) in
      let t = pushed_behind held l b i in
      let u = with_locks t (drop_lock t.head_mutex l) (drop_lock t.tail_mutex l) in
      let same : SameStore u (both 12 j) = record {
        live = λ a. refl;
        prev = λ a. ground arith;
        next = λ a. ground arith;
        owner = λ a. ground arith;
        head = λ a. refl;
        tail = λ a. ground arith;
        item_count = λ a. ground arith;
        head_mutex = λ a. ground arith;
        tail_mutex = λ a. ground arith;
      } in
      push_back_short 0 (both 0 j) t l i v.live_l idle (ground arith) few e
      ∙ ap (λ z. some (tt, z)) (same_store u (both 12 j) same)

  -- A whole push, before the pop and after it.
  push_whole :
      (j : ℕ) → (both 0 j).head_mutex l ≡ false → push_back 1 l i (both 0 j) ≡ some (tt, both 12 j)
  push_whole j idle = elim (Bool-cases (ltb ((both 0 j).item_count l) 2)) [
    | inl few ↦ push_few j idle few
    | inr many ↦ push_many j many
  ]

  pop_whole : (k : ℕ) → pop_head l (both k 0) ≡ some (x, both k 11)
  pop_whole k =
      let held = with_locks (both k 0) (grab (both k 0).head_mutex l) (both k 0).tail_mutex in
      let down = decrement held l in
      let c = v.count in
      let m = v.many in
      let r = v.room in
      let f = v.head_free in
      let ib = v.i_b in
      let ix = v.i_x in
      let iy = v.i_y in
      let xb = v.x_b in
      let xy = v.x_y in
      let h = v.head in
      let lb = v.live_b in
      let li = v.live_i in
      let ll = v.live_l in
      let lx = v.live_x in
      let ly = v.live_y in
      let nn = v.no_null in
      let o = v.owner_x in
      let t = left_behind down l x y in
      let end : held.live (held.tail l) ≡ true = ground arith in
      let size : held.item_count l ≡ suc (n + one (ltb 3 k) - 1) = ground arith in
      let first =
        pop_first held l x (held.tail l) (n + one (ltb 3 k) - 1) ll nn (ground arith) refl lx end
          size in
      let apart : x ≢ down.tail l = ground arith in
      let out =
        remove_first down l x nn ll (down.prev x) y (refl, ground arith, ground arith, lx) ly
          (ground arith) apart in
      let u = with_locks t (drop_lock t.head_mutex l) t.tail_mutex in
      let same : SameStore u (both k 11) = record {
        live = λ a. refl;
        prev = λ a. ground arith;
        next = λ a. ground arith;
        owner = λ a. ground arith;
        head = λ a. ground arith;
        tail = λ a. refl;
        item_count = λ a. ground arith;
        head_mutex = λ a. ground arith;
        tail_mutex = λ a. refl;
      } in
      pop_head_long (both k 0) t l x (n + one (ltb 3 k) - 1) ll (ground arith) (ground arith)
        (ground arith) (first ∙ out)
      ∙ ap (λ z. some (x, z)) (same_store u (both k 11) same)

-- A list of two items or more, linked and counted, with both mutexes free, and a detached item `i`
-- outside it; one more item does not overflow the counter. One thread calls `pushBack` with `i`, another
-- calls `popHead` once. However their statements interleave, when both calls have returned the popper
-- has the list's first item, and the store is the one that a push and then a pop leave, and also the
-- one that a pop and then a push leave.
pub overlap-sequence :
    (s : Store) (l i x y : Ptr) (zs : List Ptr)
    → IsList s l (x ∷ y ∷ zs)
    → Unlocked s l
    → IsDetached s i
    → NotIn i (x ∷ y ∷ zs)
    → length (x ∷ y ∷ zs) + 1 < u32
    → (r : Ptr) (t : Store) → Once l i (system begin start s) (system pushed (popped r) t)
    → (r ≡ x)
      × ((do push_back 1 l i; pop_head l) s ≡ some (x, t))
      × ((do out ← pop_head l; push_back 1 l i; pure out) s ≡ some (x, t))
overlap-sequence s l i x y zs w u d new room r t run =
    let b = last_or y zs in
    let n = length (x ∷ y ∷ zs) in
    let v = list-IsReady s l i x y zs w u d new room in
    let (at_x, e) = Once-both s l i x y b n v r t run in
    let from = mixed-start s l i x y b n v in
    let idle : (mixed s l i x y b false 0 0).head_mutex l ≡ false = ground arith in
    let push_first = ap (push_back 1 l i) from ∙ push_whole s l i x y b n v 0 idle in
    let pop_first = ap (pop_head l) from ∙ pop_whole s l i x y b n v 0 in
    (
      at_x,
      rw (push_first, pop_whole s l i x y b n v 12) rw e refl,
      rw (pop_first, push_whole s l i x y b n v 11 idle) rw e refl,
    )

-- A list of two items or more, linked and counted, with both mutexes free, and a detached item `i`
-- outside it; one more item does not overflow the counter. One thread calls `pushBack` with `i`, another
-- calls `popHead` once. At every point of every run, at most 27 steps have been made. The popper has
-- returned with the first item, or its next statement goes on. The pusher has returned, or its next
-- statement goes on, or it waits for a mutex while the popper's next statement goes on. So neither of
-- them uses a null or freed pointer.
pub overlap-goes :
    (s : Store) (l i x y : Ptr) (zs : List Ptr)
    → IsList s l (x ∷ y ∷ zs)
    → Unlocked s l
    → IsDetached s i
    → NotIn i (x ∷ y ∷ zs)
    → length (x ∷ y ∷ zs) + 1 < u32
    → (p : PushPc) (q : PopPc) (t : Store) → (run : Once l i (system begin start s) (system p q t))
    → (steps run ≤ 27)
      × ((q ≡ popped x) ⊎ MovesOn (pop_step l q t))
      × ((p ≡ pushed)
          ⊎ (MovesOn (push_step l i p t)
              ⊎ ((push_step l i p t ≡ waits) × MovesOn (pop_step l q t))))
overlap-goes s l i x y zs w u d new room p q t run =
    let v = list-IsReady s l i x y zs w u d new room in
    Once-goes s l i x y (last_or y zs) (length (x ∷ y ∷ zs)) v p q t run
