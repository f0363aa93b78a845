-- ===== src/Mutex.antt =====
-- `bMutex` and `bCond` of src/b_mutex_cond.h and src/b_mutex_cond.cc. The list of waiting routines
-- is the abstract queue of its `bMutexCondTaskList`, and what `AddTask` makes ready is a list in the
-- order of the calls. A routine is a number.
pub mod Turns
pub mod System
pub mod Signals
mod Examples
use b_routine.Wheel.{Timer, get_bucket, push_task}
use b_routine.Base.{
  ℕ, Bool, true, false, Option, none, some, List, [], ◌∷◌, ◌++◌, ◌==◌, if◌then◌else◌,
}

pub record Mutex : Type 0 where
  pub lock_count : ℕ
  pub waiting : List ℕ

-- `compare_exchange_strong(expected, desired)` on a value: the verdict, what `expected` is
-- afterwards, which is the value found where the exchange fails, and the new value.
pub compare_exchange : (value expected desired : ℕ) → Bool × ℕ × ℕ
compare_exchange value expected desired =
    if value == expected then (true, expected, desired) else (false, value, value)

-- How a round of `lock`, from `retry` on, ends: it returns, or the routine has put itself on the
-- list and swaps out, with `i` as the exchange left it.
pub data Turn : Type 0 where
  acquired : Turn
  parked : ℕ → Turn

-- A round of `bMutex::lock` with the local variable `i`. (`add` always answers true.)
pub lock_round : (i self : ℕ) → Mutex → Turn × Mutex
unfolding compare_exchange
lock_round i self m =
    let (done, i', count) = compare_exchange m.lock_count i 1 in
    if done
    then (acquired, record m { lock_count = count })
    else (parked i', record m { lock_count = count; waiting = m.waiting ++ self ∷ [] })

-- The value of `i` with which `lock` begins.
abbrev pub first_i : ℕ
first_i = 0

-- `bMutexCondTaskList::pop`, as a queue.
pub take_first : List ℕ → Option ℕ × List ℕ
take_first [] = (none, [])
take_first (r ∷ rest) = (some r, rest)

-- `bMutex::unlock`: the routine that it makes ready, and the mutex. `none` is `abort()`.
pub unlock : Mutex → Option (Option ℕ × Mutex)
unfolding compare_exchange take_first
unlock m =
    let (done, i, count) = compare_exchange m.lock_count 1 0 in
    let (woken, rest) = take_first m.waiting in
    if done then some (woken, record { lock_count = count; waiting = rest }) else none

-- `bCond::signalOnce`: the routine that it makes ready, and the waiting list. `none` is the use of
-- the null pointer that `pop` answers on the empty list.
pub signal_once : List ℕ → Option (ℕ × List ℕ)
signal_once [] = none
signal_once (r ∷ rest) = some (r, rest)

-- `bCond::signalAll`: pops until null, adding a task for each.
pub signal_all : (waiting ready : List ℕ) → List ℕ × List ℕ
signal_all [] ready = ([], ready)
signal_all (r ∷ rest) ready = signal_all rest (ready ++ r ∷ [])

-- `bCond::wait` up to `SwapContext`: the routine that `unlock` makes ready, the mutex and the
-- waiting list of the condition. Behind `SwapContext` stands a `lock`.
pub wait_begin : ℕ → Mutex → List ℕ → Option (Option ℕ × Mutex × List ℕ)
unfolding unlock
wait_begin self m waiting = elim (unlock m) [
  | none ↦ none
  | some (woken, m') ↦ some (woken, m', waiting ++ self ∷ [])
]

-- `bCond::timeWait` up to `SwapContext`, with the pointer of its task: what `wait_begin` does, and the
-- timer with the task in the bucket for the timeout, which is converted to an unsigned number.
pub time_wait_begin :
    (self task timeout_ms : ℕ) → Mutex → List ℕ → Timer → Option (Option ℕ × Mutex × List ℕ × Timer)
unfolding wait_begin
time_wait_begin self task timeout_ms m waiting timer = elim (wait_begin self m waiting) [
  | none ↦ none
  | some (woken, m', waiting') ↦
      some (woken, m', waiting', push_task timer (get_bucket timer timeout_ms) task)
]

-- What `bCond::timeWait` does after `SwapContext`, by `IsTimeout`: whether it takes its task off the
-- timer wheel and calls `lock`, and what it returns.
pub record TimeWaitEnd : Type 0 where
  pub leaves_timer : Bool
  pub locks : Bool
  pub result : ℕ

unfoldable pub time_wait_end : (is_timeout : ℕ) → TimeWaitEnd
time_wait_end is_timeout =
    if is_timeout == 0
    then record { leaves_timer = true; locks = true; result = 1 }
    else record { leaves_timer = false; locks = false; result = 0 }
