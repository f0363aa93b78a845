-- ===== src/Tasks/Threads/Setting.antt =====
-- The store of a list of two items or more while one thread is in `pushBack` and another in
-- `popHead` (src/b_task.cc), as a function of how many statements each of them has made.
use mathlib.Core.Path.{fun_ext}
use b_routine.Base.{
  ℕ, ◌+◌, ◌-◌, ◌≤◌, ◌<◌, ◌≡◌, refl, sym, arith, List, [], ◌∷◌, NotIn, ne_of_NotIn, length, ◌≢◌,
  Bool, true, false, not, ◌&&◌, ◌||◌, ◌==◌, ltb, if◌then◌else◌,
}
use b_routine.Tasks.Segment.{IsList, IsDetached, Seg, Seg-live, last_or}
use b_routine.Tasks.Unlink.{In-last_or}
use b_routine.Tasks.Locked.Alone.{Unlocked}
use b_routine.Tasks.{Ptr, null, u32, Store}

-- A list at `l` begins with `x` and `y`, ends with `b` and counts `n` items; nobody uses it, and `i` is
-- to be pushed.
pub record IsReady (s : Store) (l i x y b : Ptr) (n : ℕ) : Type 0 where
  pub no_null : s.live null ≡ false
  pub live_l : s.live l ≡ true
  pub live_x : s.live x ≡ true
  pub live_y : s.live y ≡ true
  pub live_b : s.live b ≡ true
  pub live_i : s.live i ≡ true
  pub x_y : x ≢ y
  pub x_b : x ≢ b
  pub i_x : i ≢ x
  pub i_y : i ≢ y
  pub i_b : i ≢ b
  pub head : s.head l ≡ x
  pub tail : s.tail l ≡ b
  pub next_x : s.next x ≡ y
  pub prev_y : s.prev y ≡ x
  pub next_b : s.next b ≡ null
  pub prev_i : s.prev i ≡ null
  pub next_i : s.next i ≡ null
  pub owner_x : s.owner x ≡ l
  pub count : s.item_count l ≡ n
  pub many : 2 ≤ n
  pub room : n + 1 < u32
  pub head_free : s.head_mutex l ≡ false
  pub tail_free : s.tail_mutex l ≡ false

abbrev pub one : Bool → ℕ
one c = if c then 1 else 0

-- The store `s` after `k` statements of the push and `j` of the pop; `h` tells whether the push holds the
-- mutex of the head.
abbrev pub mixed : Store → (l i x y b : Ptr) → (h : Bool) → (k j : ℕ) → Store
mixed s l i x y b h k j = record {
  live = s.live;
  prev = λ a.
      if a == y
      then (if ltb 6 j then null else x)
      else if a == i
      then (if ltb 6 k then b else null)
      else s.prev a;
  next = λ a.
      if a == x
      then (if ltb 8 j then null else y)
      else if a == b
      then (if ltb 5 k then i else null)
      else s.next a;
  owner = λ a.
      if a == x
      then (if ltb 9 j then null else l)
      else if (a == i) && ltb 9 k
      then l
      else s.owner a;
  head = λ a. if a == l then (if ltb 7 j then y else x) else s.head a;
  tail = λ a. if a == l then (if ltb 7 k then i else b) else s.tail a;
  item_count =
      λ a. if a == l then s.item_count l + one (ltb 3 k) - one (ltb 4 j) else s.item_count a;
  head_mutex = λ a. if a == l then h || (ltb 1 j && not (ltb 10 j)) else s.head_mutex a;
  tail_mutex = λ a. if a == l then ltb 1 k && not (ltb 11 k) else s.tail_mutex a;
}

-- Two stores are one when they hold the same at each address.
pub record SameStore (s t : Store) : Type 0 where
  pub live : (a : Ptr) → s.live a ≡ t.live a
  pub prev : (a : Ptr) → s.prev a ≡ t.prev a
  pub next : (a : Ptr) → s.next a ≡ t.next a
  pub owner : (a : Ptr) → s.owner a ≡ t.owner a
  pub head : (a : Ptr) → s.head a ≡ t.head a
  pub tail : (a : Ptr) → s.tail a ≡ t.tail a
  pub item_count : (a : Ptr) → s.item_count a ≡ t.item_count a
  pub head_mutex : (a : Ptr) → s.head_mutex a ≡ t.head_mutex a
  pub tail_mutex : (a : Ptr) → s.tail_mutex a ≡ t.tail_mutex a

pub same_store : (s t : Store) → SameStore s t → s ≡ t
same_store s t e = λ i. record {
  live = fun_ext e.live i;
  prev = fun_ext e.prev i;
  next = fun_ext e.next i;
  owner = fun_ext e.owner i;
  head = fun_ext e.head i;
  tail = fun_ext e.tail i;
  item_count = fun_ext e.item_count i;
  head_mutex = fun_ext e.head_mutex i;
  tail_mutex = fun_ext e.tail_mutex i;
}

pub mixed-start :
    (s : Store) (l i x y b : Ptr) (n : ℕ) → IsReady s l i x y b n → s ≡ mixed s l i x y b false 0 0
mixed-start s l i x y b n v =
    let nexty = v.next_x in
    let prevy = v.prev_y in
    let nextb = v.next_b in
    let previ = v.prev_i in
    let ownerx = v.owner_x in
    let head = v.head in
    let tail = v.tail in
    let h = v.head_free in
    let t = v.tail_free in
    same_store s (mixed s l i x y b false 0 0) (record {
      live = λ a. refl;
      prev = λ a. ground arith;
      next = λ a. ground arith;
      owner = λ a. ground arith;
      head = λ a. ground arith;
      tail = λ a. ground arith;
      item_count = λ a. ground arith;
      head_mutex = λ a. ground arith;
      tail_mutex = λ a. ground arith;
    })

Seg-next_last :
    (s : Store) (l p q x : Ptr) (xs : List Ptr) → Seg s l p q (x ∷ xs) → s.next (last_or x xs) ≡ q
Seg-next_last s l p q x [] g = g.0.1
Seg-next_last s l p q x (y ∷ xs) g = Seg-next_last s l x q y xs g.1

pub list-IsReady :
    (s : Store) (l i x y : Ptr) (zs : List Ptr)
    → IsList s l (x ∷ y ∷ zs)
    → Unlocked s l
    → IsDetached s i
    → NotIn i (x ∷ y ∷ zs)
    → length (x ∷ y ∷ zs) + 1 < u32
    → IsReady s l i x y (last_or y zs) (length (x ∷ y ∷ zs))
list-IsReady s l i x y zs v (f, g) d new room =
    let w = v.linked in
    let (no_x, no_more) = new in
    let ((px, nx, ox, lx), rest) = w.items in
    let last = In-last_or y zs in
    record {
      no_null = w.no_null;
      live_l = w.alive;
      live_x = lx;
      live_y = rest.0.3;
      live_b = Seg-live s l x null (last_or y zs) (y ∷ zs) rest last;
      live_i = d.alive;
      x_y = w.distinct.0.0;
      x_b = λ e. ne_of_NotIn (y ∷ zs) w.distinct.0 last (sym e);
      i_x = no_x;
      i_y = no_more.0;
      i_b = λ e. ne_of_NotIn (y ∷ zs) no_more last (sym e);
      head = w.head;
      tail = w.tail;
      next_x = nx;
      prev_y = rest.0.0;
      next_b = Seg-next_last s l x null y zs rest;
      prev_i = d.no_prev;
      next_i = d.no_next;
      owner_x = ox;
      count = v.count;
      many = omega arith;
      room = room;
      head_free = f;
      tail_free = g;
    }
