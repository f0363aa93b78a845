-- ===== src/Lib.antt =====
-- bRoutine is a library of coroutines for Linux. A routine has a stack and a saved context
-- (src/b_stack.cc, src/b_context.cc). A worker thread has a scheduler (src/b_scheduler.cc) that takes
-- tasks off its ready list (src/b_task.cc) and switches to the routine of each. Tasks reach the ready
-- lists through the distributor, which hands them out in turn; an idle worker steals from the others
-- (src/b_routine_env.cc). Waits with a timeout stand on a timer wheel (src/b_epoll.cc), and routines
-- wait for one another with a mutex and a condition (src/b_mutex_cond.cc). The system calls of the
-- network are hooked (src/b_hook.cc) so that they switch instead of blocking.
--
-- The files and what they model:
--   * Base: library names, Boolean tests on numbers, lemmas on lists.
--   * Tasks: `TaskItem` and `TaskItemsList` of src/b_task.hh and src/b_task.cc over a store with a
--     function for each field of the structs; Tasks/Locked has the operations that take mutexes.
--     Tasks/Threads has `pushBack` and `popHead` statement by statement, for two threads on one list.
--   * Nodes, Queues: `List<T>` of src/b_routine_env.h and `bMutexCondTaskList` of
--     src/b_mutex_cond.cc over a store of nodes.
--   * Mutex: `bMutex` and `bCond` of src/b_mutex_cond.cc; Mutex/System is the step relation of the
--     routines that share a mutex.
--   * Wheel: `bEpTimer` of src/b_epoll.cc.
--   * Distributor: `TaskDistributor_t`, `Try2stealTask` and `stealTaskRoutine` of
--     src/b_routine_env.cc.
--   * Stacks: `bRoutineStack` of src/b_stack.cc, `bContext::init` of src/b_context.cc and
--     `bUnSharedStackPool_t` of src/b_routine_env.cc.
--   * Switch: `bSwap` of src/b_swap.S on the registers and the memory, and the registers that
--     `bContext::init` of src/b_context.cc writes.
--   * Clock: the clock of src/b_routine_env.cc.
--   * Scheduler: `bScheduler` of src/b_scheduler.cc, `bRoutine` of src/b_routine.cc and
--     `bRoutineRecycle` of src/b_routine_env.cc.
--   * Hooks: src/b_hook.cc: the table of descriptors and `fcntl`; Hooks/Table has `socket`, `accept`,
--     `close` and `setsockopt`, Hooks/Waits has `write`, `send` and `read`, with `recv`. The
--     system's calls are arguments, and what is relied on of them is a hypothesis. Hooks/Calls has
--     `connect`, `sendto` and `recvfrom`, and Hooks/Lookup `enableHook`, `disableHook` and the table
--     of the system's calls, with `dlsym` as an argument.
--   * Poll: the hooked `poll` of src/b_hook.cc, its message and callbacks and the conversions of masks;
--     a message is known by its task, and the task by its pointer on the wheel of Wheel.
--   * Deal: `bRoutineEnv::Deal` of src/b_routine_env.cc over the messages of Poll and that wheel.
--   * Worker: a round of `ProcessBegin` of src/b_scheduler.cc, which puts Deal and Scheduler together;
--     Worker/Rotate has whole rounds in which routines yield, and Worker/Boot `bRoutineEnv::init` and
--     what it calls in src/b_routine_env.cc and src/b_scheduler.cc.
--   * Examples, in a folder: runs on concrete inputs.
-- A name keeps the source's words, so `pushBackUnsafe` is `push_back_unsafe`. The components that
-- use a task list but the store see it as the queue of its items, in order.
--
-- Bounds and fuel. `ItemCount` wraps at 2 ^ 32, `_size` and the numbers of the wheel at 2 ^ 64, the
-- number of a routine at 2 ^ 16, and what `poll` returns is narrowed to an `int`; addresses do not
-- wrap. Fuel stands for the rounds of the loops of
-- `pushBack`, `pushAll2`, `Delete`, `NewMergeUpdate2Now`, `stealTaskRoutine`, `write` and `read`, and
-- `Deal`, a round of `ProcessBegin` and `init` pass it on: one round for each item, millisecond,
-- worker, byte or poll and one more for the last test is enough, and the results that speak of an end
-- take any fuel above that.
--
-- The masks of events and the values of `errno` are those of Linux.
--
-- Scheduler, Deal and Worker take the time as an argument, and a switch of theirs exchanges the pointers
-- of two routines; Switch shows what the processor does meanwhile.
--
-- Not modelled: memory that runs out, threads that interleave inside an operation other than one
-- `pushBack` and the `popHead`s of one other thread on a task list, a thread that `pthread_create` starts
-- (it is counted), `IsStop`, which nothing sets, and the debug output.
pub mod Base
pub mod Clock
pub mod Deal
pub mod Distributor
pub mod Hooks
pub mod Mutex
pub mod Nodes
pub mod Poll
pub mod Queues
pub mod Scheduler
pub mod Stacks
pub mod Switch
pub mod Tasks
pub mod Wheel
pub mod Worker
