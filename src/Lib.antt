-- ===== src/Lib.antt =====
-- A verification of the user-level thread library: threads in one process, each with a structure and
-- a stack of its own, which switch among themselves by swapping contexts, when they call the library
-- or when its timer interrupts them.
--
-- The parts and their files. The functions keep the names that they have in the program.
--   Machine       include/thread_internal.h, include/thread.h and the global variables: the thread
--                 structure `Thread` and the whole state `Machine`. A pointer is the number of an
--                 address. `swap_thread` writes the context, which is the point where the thread
--                 goes on (`Context`), in place of registers and a stack (src/context.S).
--   Scheduler     src/scheduler.c: the ready queue, `thread_yield`, `thread_yield_to` and
--                 `thread_set_priority`, for either value of THREAD_SCHED_POLICY.
--   Mutex, Sem, Cond, Signal
--                 src/thread_mutex.c, src/thread_sem.c, src/thread_cond.c, src/thread_sig.c. A call
--                 that blocks ends with `switched`; what follows the swap is a function of its own.
--   Pool          src/pool.c and the deferred stacks of src/thread.c.
--   Gc            src/thread_gc.c: zombies, the final cleanup and its registration.
--   Lifecycle     src/thread.c: `thread_create`, `thread_exit`, `thread_join`, the pools of
--                 structures and of join slots; the SIGSEGV handler of src/preemption.c.
--                 Process is the end of the process, with the handlers given to `atexit`.
--   Context       include/context.h and src/context.S, for x86-64 (X86) and AArch64 (Arm): the saved
--                 registers, the first context of a thread, and the switch as a list of instructions
--                 that a processor executes.
--   Preemption    src/preemption.c: the mask, the timer and the handlers that it sets up.
--   System        all calls of the API and all resumptions as one step relation, `Step`, and the
--                 states that can be reached, `Reach`. Its steps include a fault of the running thread
--                 in its guard page. System/Preemptive adds the signal mask of the process, and
--                 interrupts by the timer wherever the program runs with SIGVTALRM unblocked: `PStep`
--                 and `PReach`. System/Locks is about the mutexes and semaphores under all of
--                 them, System/Order about the ready queue under THREAD_SCHED_PRIO, and
--                 System/Results about the values that the calls return.
--   Abstract      the contract of the scheduler without policy and representation: one thread runs,
--                 the ready threads are queued, a blocked thread waits in exactly one queue.
--                 Refinement maps the state to the contract (`view`).
--   Base          shared names, Boolean tests, integers and lists; Tests, runs of the library.
-- The modules below a part are named for what they are about; those named Refinement relate the
-- operations of a part to Abstract, and System/Safety does so for all calls.
-- How they interact: every blocking call takes the next thread from the ready queue and swaps to it;
-- every waking call makes a thread ready through `revive`, which enqueues it; `thread_exit` wakes the
-- joiner. `Outcome` says whether a call returns, switches, begins a new thread or ends the process.
--
-- Bounds. The loops over queues recurse on the list. `reclaim_from` has the budget
-- MAX_DEFERRED_STACKS of the program. The loop of `thread_create` recurses on the retries that are
-- left of 4096. The loop of `thread_signal_pick_one` has its 32 rounds. One round of the loop of
-- `thread_sigwait` is a step, as other threads run between two rounds. Sets of signals have 32 bits;
-- priorities, counts and `locked` are integers, and no `int` overflows in the model.
--
-- In System/Preemptive a call is one step, and the timer interrupts the program between two calls.
--
-- Not modelled: an interrupt inside a call, before its first `preem_block` or after its last
-- `preem_unblock`; the registers of the signal frame; `madvise` and Valgrind,
-- which change no state of the library. The build is the one with ENABLE_SIGNAL. What the kernel does
-- with masks, handlers and faults is the documented behaviour of sigprocmask, sigaction and sigaltstack.
-- The answers of `malloc`, `realloc` and `mmap` (with `mprotect`) are the list `replies`. `freed` has
-- the structures that went to `free`, and not the chunks of slots. The redirection to pthread by
-- USE_PTHREAD is not the library's code. Machine takes a context as the point where a thread goes on,
-- and Context shows what the switch itself does with the registers; the two are not joined.
pub mod Base
pub mod Machine
pub mod Abstract
pub mod Scheduler
pub mod Refinement
pub mod Mutex
pub mod Sem
pub mod Cond
pub mod Signal
pub mod Pool
pub mod Gc
pub mod Lifecycle
pub mod Context
pub mod Preemption
pub mod System
pub mod Tests
