-- ===== src/Queues/Pool.antt =====
-- `List<T>` of src/b_routine_env.h is a queue that knows its size.
use b_routine.Base.{
  ℕ, ◌+◌, ◌-◌, ◌%◌, ◌<◌, ◌≡◌, ◌≢◌, refl, sym, ◌∙◌, true, false, [], ◌∷◌, ◌++◌, arith, some, Option,
  length, length-append,
}
use b_routine.Nodes.{Nodes, Ends, update}
use b_routine.Nodes.Chain.{Cells, IsChain, Snoc, none_left, ends, snoc, last-append}
use b_routine.Nodes.Grow.{
  IsFresh, alone, grown, ends_of, IsChain-live, last-ne, alone-IsChain, grown-IsChain, rest-IsChain,
}
use b_routine.Queues.{PoolList, u64, pool_pop, pool_push}

-- The list links the cells and counts them.
pub record IsPool (h : Nodes) (l : PoolList) (xs : Cells) : Type 0 where
  pub chain : IsChain h l.ends xs
  pub count : l.size ≡ length xs

abbrev pool : Ends → ℕ → PoolList
pool e n = record { ends = e; size = n }

push_alone :
    (h : Nodes) (f v : ℕ) (l : PoolList)
    → l.ends.tail ≡ 0
    → pool_push f l v h ≡ some (pool (ends_of f f) ((l.size + 1) % u64), alone h f v)
unfolding pool_push
push_alone h f v l t = ground arith

push_behind :
    (h : Nodes) (f v b : ℕ) (l : PoolList)
    → l.ends.tail ≡ b
    → b ≢ 0
    → h.live b ≡ true
    → pool_push f l v h ≡ some (pool (ends_of l.ends.head f) ((l.size + 1) % u64), grown h f v b)
unfolding pool_push
push_behind h f v b l t n a = ground arith

-- `List::push` appends the value and counts it.
pub pool_push-append :
    (h : Nodes) (f v : ℕ) (l : PoolList) (xs : Cells)
    → IsPool h l xs
    → IsFresh h f
    → length xs + 1 < u64
    → (l' : PoolList) × (g : Nodes) × (pool_push f l v h ≡ some (l', g))
      × IsPool g l' (xs ++ (f, v) ∷ [])
pool_push-append h f v l xs c n room = by_end (snoc xs) c room
  where
    by_end :
        {ys : Cells}
        → Snoc ys
        → IsPool h l ys
        → length ys + 1 < u64
        → (l' : PoolList) × (g : Nodes) × (pool_push f l v h ≡ some (l', g))
          × IsPool g l' (ys ++ (f, v) ∷ [])
    by_end none_left d r = (
      pool (ends_of f f) ((l.size + 1) % u64),
      alone h f v,
      push_alone h f v l d.chain.tail,
      record { chain = alone-IsChain h f v l.ends d.chain n; count = omega (arith, d.count) },
    )
    by_end (ends ys b w) d r =
        let (live, nonnull) = IsChain-live h b w l.ends ys d.chain in
        (
          pool (ends_of l.ends.head f) ((l.size + 1) % u64),
          grown h f v b,
          push_behind h f v b l (d.chain.tail ∙ last-append 0 ys ((b, w) ∷ [])) nonnull live,
          record {
            chain = grown-IsChain h f v b w l.ends ys d.chain n;
            count = omega (arith, d.count, length-append (ys ++ (b, w) ∷ []) ((f, v) ∷ []));
          },
        )

abbrev freed : Nodes → ℕ → Nodes
freed h a = record h { live = update h.live a false }

abbrev freed_first : Nodes → (a n : ℕ) → Nodes
freed_first h a n = record h { live = update h.live a false; prev = update h.prev n 0 }

pop_only :
    (h : Nodes) (a v : ℕ) (l : PoolList)
    → l.ends.head ≡ a
    → l.ends.tail ≡ a
    → a ≢ 0
    → h.live a ≡ true
    → h.value a ≡ v
    → pool_pop l h ≡ some ((v, pool (ends_of 0 0) ((l.size + (u64 - 1)) % u64)), freed h a)
unfolding pool_pop
pop_only h a v l b t n k w = ground arith

pop_first :
    (h : Nodes) (a v n : ℕ) (l : PoolList)
    → l.ends.head ≡ a
    → l.ends.tail ≢ a
    → a ≢ 0
    → h.live a ≡ true
    → h.value a ≡ v
    → h.next a ≡ n
    → h.live n ≡ true
    → pool_pop l h
      ≡ some ((v, pool (ends_of n l.ends.tail) ((l.size + (u64 - 1)) % u64)), freed_first h a n)
unfolding pool_pop
pop_first h a v n l b t z k w m j = ground arith

-- What a pop of a list of `xs` gives: null from the empty one, and otherwise the value put in first;
-- its node is freed, and the list links and counts the rest.
abbrev pub PoolPops : Nodes → PoolList → Cells → Option ((ℕ × PoolList) × Nodes) → Type 0
PoolPops h l [] r = r ≡ some ((0, l), h)
PoolPops h l ((a, v) ∷ xs) r =
    (l' : PoolList) × (g : Nodes) × (r ≡ some ((v, l'), g)) × IsPool g l' xs × (g.live a ≡ false)

-- `List::pop` takes the oldest value, frees its node and counts it off; on the empty list it
-- answers null and changes nothing.
pub pool_pop-PoolPops :
    (h : Nodes) (l : PoolList) (xs : Cells)
    → IsPool h l xs
    → length xs < u64
    → PoolPops h l xs (pool_pop l h)
unfolding pool_pop
pool_pop-PoolPops h l [] c room = let q = c.chain.head in ground arith
pool_pop-PoolPops h l ((a, v) ∷ []) c room =
    let ((p, n, w, k), _) = c.chain.cells in
    let z = c.chain.no_null in
    let a0 : a ≢ 0 = λ q. ground arith in
    (
      pool (ends_of 0 0) ((l.size + (u64 - 1)) % u64),
      freed h a,
      pop_only h a v l c.chain.head c.chain.tail a0 k w,
      record {
        chain = record {
          no_null = ground arith;
          head = refl;
          tail = refl;
          cells = tt;
          distinct = tt;
        };
        count = omega (arith, c.count);
      },
      ground arith,
    )
pool_pop-PoolPops h l ((a, v) ∷ (n, w) ∷ xs) c room =
    let ((p, q, r, k), ((np, nn, nv, nl), rest)) = c.chain.cells in
    let (na, _) = c.chain.distinct in
    let z = c.chain.no_null in
    let an = na.0 in
    let a0 : a ≢ 0 = λ e. ground arith in
    (
      pool (ends_of n l.ends.tail) ((l.size + (u64 - 1)) % u64),
      freed_first h a n,
      pop_first h a v n l c.chain.head (λ e. last-ne a n w xs na (sym e ∙ c.chain.tail)) a0 k r q
          nl,
      record {
        chain =
            rest-IsChain h (freed_first h a n) a v n w l.ends xs c.chain (ground arith)
              (ground arith, refl, refl, ground arith)
              (λ y i j. (ground arith, refl, refl, ground arith));
        count = omega (arith, c.count);
      },
      ground arith,
    )
