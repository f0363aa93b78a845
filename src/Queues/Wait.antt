-- ===== src/Queues/Wait.antt =====
-- `bMutexCondTaskList` of src/b_mutex_cond.cc is a queue of routines.
use b_routine.Base.{ℕ, ◌≡◌, ◌≢◌, refl, ◌∙◌, true, false, List, [], ◌∷◌, ◌++◌, arith, some, Option}
use b_routine.Nodes.{Nodes, Ends, update}
use b_routine.Nodes.Chain.{Cells, IsChain, Snoc, none_left, ends, snoc, last-append}
use b_routine.Nodes.Grow.{
  IsFresh, alone, grown, ends_of, IsChain-live, last-ne, alone-IsChain, grown-IsChain, rest-IsChain,
}
use b_routine.Queues.{Attempt, wait_add, wait_pop, add, pop}

add_alone :
    (h : Nodes) (f r : ℕ) (e : Ends)
    → e.tail ≡ 0
    → wait_add f e r h ≡ some (ends_of f f, alone h f r)
unfolding wait_add
add_alone h f r e t = ground arith

add_behind :
    (h : Nodes) (f r b : ℕ) (e : Ends)
    → e.tail ≡ b
    → b ≢ 0
    → h.live b ≡ true
    → wait_add f e r h ≡ some (ends_of e.head f, grown h f r b)
unfolding wait_add
add_behind h f r b e t n l = ground arith

-- `add` puts the routine behind those that wait.
wait_add-append :
    (h : Nodes) (f r : ℕ) (e : Ends) (xs : Cells)
    → IsChain h e xs
    → IsFresh h f
    → (e' : Ends) × (g : Nodes) × (wait_add f e r h ≡ some (e', g))
      × IsChain g e' (xs ++ (f, r) ∷ [])
wait_add-append h f r e xs c n = by_end (snoc xs) c
  where
    by_end :
        {ys : Cells}
        → Snoc ys
        → IsChain h e ys
        → (e' : Ends) × (g : Nodes) × (wait_add f e r h ≡ some (e', g))
          × IsChain g e' (ys ++ (f, r) ∷ [])
    by_end none_left d =
        (ends_of f f, alone h f r, add_alone h f r e d.tail, alone-IsChain h f r e d n)
    by_end (ends ys b w) d =
        let end = d.tail ∙ last-append 0 ys ((b, w) ∷ []) in
        let (live, nonnull) = IsChain-live h b w e ys d in
        (
          ends_of e.head f,
          grown h f r b,
          add_behind h f r b e end nonnull live,
          grown-IsChain h f r b w e ys d n,
        )

pop_only :
    (h : Nodes) (a : ℕ) (e : Ends)
    → e.head ≡ a
    → e.tail ≡ a
    → a ≢ 0
    → wait_pop e h ≡ some ((a, ends_of 0 0), h)
unfolding wait_pop
pop_only h a e b t n = ground arith

abbrev without : Nodes → (a n : ℕ) → Nodes
without h a n = record h { prev = update h.prev n 0; next = update h.next a 0 }

pop_first :
    (h : Nodes) (a n : ℕ) (e : Ends)
    → e.head ≡ a
    → a ≢ e.tail
    → a ≢ 0
    → h.live a ≡ true
    → h.next a ≡ n
    → h.live n ≡ true
    → wait_pop e h ≡ some ((a, ends_of n e.tail), without h a n)
unfolding wait_pop
pop_first h a n e b t z l m k = ground arith

-- What a pop of the chain of `xs` gives: null from the empty one, and otherwise the first node, still
-- live and with its routine, and the chain of the rest.
abbrev pub WaitPops : Nodes → Ends → Cells → Option ((ℕ × Ends) × Nodes) → Type 0
WaitPops h e [] r = r ≡ some ((0, e), h)
WaitPops h e ((a, v) ∷ xs) r =
    (e' : Ends) × (g : Nodes) × (r ≡ some ((a, e'), g))
    × IsChain g e' xs
    × (g.value a ≡ v)
    × (g.live a ≡ true)

wait_pop-WaitPops :
    (h : Nodes) (e : Ends) (xs : Cells) → IsChain h e xs → WaitPops h e xs (wait_pop e h)
unfolding wait_pop
wait_pop-WaitPops h e [] c = let q = c.head in ground arith
wait_pop-WaitPops h e ((a, v) ∷ []) c =
    let ((p, n, w, l), _) = c.cells in
    let z = c.no_null in
    (
      ends_of 0 0,
      h,
      pop_only h a e c.head c.tail (λ q. ground arith),
      record { no_null = z; head = refl; tail = refl; cells = tt; distinct = tt },
      w,
      l,
    )
wait_pop-WaitPops h e ((a, v) ∷ (n, w) ∷ xs) c =
    let ((p, q, r, l), ((np, nn, nv, nl), rest)) = c.cells in
    let (na, _) = c.distinct in
    let z = c.no_null in
    let an = na.0 in
    (
      ends_of n e.tail,
      without h a n,
      pop_first h a n e c.head (λ k. last-ne a n w xs na (k ∙ c.tail)) (λ k. ground arith) l q nl,
      rest-IsChain h (without h a n) a v n w e xs c z
          (ground arith, ground arith, ground arith, ground arith)
          (λ y i j. (ground arith, ground arith, refl, refl)),
      r,
      l,
    )

-- Attempts that all find the mutex held.
abbrev pub AllHeld : List Attempt → Type 0
AllHeld [] = Unit {0}
AllHeld (a ∷ rest) = (a.held ≡ true) × AllHeld rest

add-retry :
    (busy later : List Attempt) (a : Attempt) (f r : ℕ)
    → AllHeld busy
    → a.held ≡ false
    → add f r (busy ++ a ∷ later) ≡ wait_add f a.ends r a.nodes
unfolding add
add-retry [] later a f r h k = rw k
add-retry (b ∷ busy) later a f r h k = rw h.0 (add-retry busy later a f r h.1 k)

pop-retry :
    (busy later : List Attempt) (a : Attempt)
    → AllHeld busy
    → a.held ≡ false
    → pop (busy ++ a ∷ later) ≡ wait_pop a.ends a.nodes
unfolding pop
pop-retry [] later a h k = rw k
pop-retry (b ∷ busy) later a h k = rw h.0 (pop-retry busy later a h.1 k)

-- However many attempts find the mutex held, `add` appends the routine to the list as the first
-- attempt that gets the mutex finds it.
pub add-append :
    (busy later : List Attempt) (a : Attempt) (f r : ℕ) (xs : Cells)
    → AllHeld busy
    → a.held ≡ false
    → IsChain a.nodes a.ends xs
    → IsFresh a.nodes f
    → (e : Ends) × (g : Nodes) × (add f r (busy ++ a ∷ later) ≡ some (e, g))
      × IsChain g e (xs ++ (f, r) ∷ [])
add-append busy later a f r xs h k c n =
    let (e, g, q, d) = wait_add-append a.nodes f r a.ends xs c n in
    (e, g, add-retry busy later a f r h k ∙ q, d)

-- However many attempts find the mutex held, `pop` takes the routine that has waited longest off
-- the list as the first attempt that gets the mutex finds it, and null off an empty one.
pub pop-WaitPops :
    (busy later : List Attempt) (a : Attempt) (xs : Cells)
    → AllHeld busy
    → a.held ≡ false
    → IsChain a.nodes a.ends xs
    → WaitPops a.nodes a.ends xs (pop (busy ++ a ∷ later))
pop-WaitPops busy later a xs h k c =
    rw (pop-retry busy later a h k) (wait_pop-WaitPops a.nodes a.ends xs c)
