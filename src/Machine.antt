-- ===== src/Machine.antt =====
-- include/thread.h, include/thread_internal.h, and the global variables of src/thread.c,
-- src/scheduler.c, src/thread_gc.c and src/pool.c: the thread structure and the whole state.
-- A pointer to a structure is the number of its address; one that may be null is an `Option ℕ`.
use user_level_thread_librar.Base.{ℕ, Option, none, Bool, false, List, ℤ, pos, negsuc, update}

-- The two values of THREAD_SCHED_POLICY.
pub data Policy : Type 0 where
  fifo prio : Policy

-- THREAD_READY, THREAD_RUNNING, THREAD_TERMINATED, THREAD_BLOCKED.
pub data State : Type 0 where
  ready running terminated blocked : State

abbrev pub is_ready : State → Bool
is_ready ready = Bool.true
is_ready _ = false

abbrev pub is_running : State → Bool
is_running running = Bool.true
is_running _ = false

abbrev pub is_terminated : State → Bool
is_terminated terminated = Bool.true
is_terminated _ = false

abbrev pub is_blocked : State → Bool
is_blocked blocked = Bool.true
is_blocked _ = false

-- Who called `thread_mutex_lock`: the program, or `thread_cond_wait`, at its end or when it found
-- no other thread to run.
pub data Caller : Type 0 where
  program cond_end cond_alone : Caller

-- The arguments of `thread_create`, and its `newth` and `alloc_retries`.
pub record Creation : Type 0 where
  pub newthread : ℕ
  pub func : ℕ
  pub funcarg : ℕ
  pub newth : ℕ
  pub alloc_retries : ℕ

-- What `struct fast_ctx` stands for: the point at which the thread goes on when it is resumed.
pub data Context : Type 0 where
  entry : Context  -- at the start of `thread_entry`
  in_yield : Context  -- after the swap of `thread_yield` or `thread_yield_to`
  in_join : ℕ → Option ℕ → Context  -- of `thread_join`, with its target and `retval`
  in_lock : ℕ → Caller → Context  -- of `thread_mutex_lock`
  in_sem_wait : ℕ → Context  -- of `thread_sem_wait`
  in_cond_wait : ℕ → ℕ → Context  -- of `thread_cond_wait`, with its condition and mutex
  in_sigwait : ℕ → ℕ → Context  -- of `thread_sigwait`, with its set and `sig`
  in_create : Creation → Context  -- of the `thread_yield` in `thread_create`

-- `struct thread`. `entries`, the link of the queues, is in the lists of `Machine`.
pub record Thread : Type 0 where
  pub context : Context
  pub start_fun : ℕ
  pub arg : ℕ
  pub retval : ℕ
  pub stack_map : Option ℕ
  pub stack_base : ℕ
  pub joined_by : Option ℕ
  pub waiting_for : Option ℕ
  pub head_joiner : Option ℕ
  pub id : ℕ
  pub state : State
  pub valgrind_stack_id : ℕ
  pub priority : ℤ
  pub in_ready_queue : Bool
  pub in_zombie_queue : Bool
  pub stack_overflow : Bool
  pub pending_signals : ℕ
  pub blocked_signals : ℕ
  pub waited_signals : ℕ
  pub waiting_for_signal : Bool

-- `thread_mutex_t`
pub record Mutex : Type 0 where
  pub locked : ℤ
  pub waiting_queue : List ℕ

-- `thread_sem_t`
pub record Sem : Type 0 where
  pub count : ℤ
  pub waiting_queue : List ℕ

-- `thread_cond_t`
pub record Cond : Type 0 where
  pub waiting_queue : List ℕ

-- `struct stack_entry`
pub record StackEntry : Type 0 where
  pub map : ℕ
  pub stack : ℕ
  pub valgrind_id : ℕ

-- A function that the library gives to `atexit`.
pub data ExitHandler : Type 0 where
  final_cleanup_handler pool_free_handler : ExitHandler

-- `head_refs` holds what the slots of `head_ref_chunks` point to; `memory`, the cells of the
-- program that the library writes through `retval`, `newthread` and `sig`. An array with its
-- size, such as `stack_pool`, is the list of its entries, the last one first. `replies` are the
-- results that `malloc`, `realloc` and `mmap` are still to give, null at the end; `unmapped`, the
-- stacks that went to `munmap`, and `freed`, the thread structures that went to `free`.
-- `exit_handlers` are the functions that went to `atexit`, the latest first.
pub record Machine : Type 0 where
  pub threads : ℕ → Thread
  pub current_thread : ℕ
  pub ready_queue : List ℕ
  pub zombie_queue : List ℕ
  pub zombie_initialized : Bool
  pub cleanup_registered : Bool
  pub exit_handlers : List ExitHandler
  pub mutexes : ℕ → Mutex
  pub sems : ℕ → Sem
  pub conds : ℕ → Cond
  pub head_refs : ℕ → ℕ
  pub head_ref_active_chunk : Option ℕ
  pub head_ref_active_index : ℕ
  pub head_ref_chunks_count : ℕ
  pub head_ref_chunks_cap : ℕ
  pub next_thread_id : ℕ
  pub scheduler_initialized : Bool
  pub thread_pool : List ℕ
  pub deferred_stacks : List StackEntry
  pub stack_pool : List StackEntry
  pub replies : List (Option ℕ)
  pub unmapped : List StackEntry
  pub freed : List ℕ
  pub memory : ℕ → ℕ
  pub errno : ℕ

-- `&main_thread`
abbrev pub main_thread : ℕ
main_thread = 0

abbrev pub einval : ℕ
einval = 22

abbrev pub edeadlk : ℕ
edeadlk = 35

abbrev pub enomem : ℕ
enomem = 12

abbrev pub efault : ℕ
efault = 14

abbrev pub minus_one : ℤ
minus_one = negsuc 0

abbrev pub zero_rc : ℤ
zero_rc = pos 0

-- How a piece of the library's code ends: it returns a value to the program; another thread runs
-- instead; the function of a new thread begins; no thread is left, and the process ends in
-- `thread_switch_to_cleanup`; or the process is killed by SIGSEGV.
pub data Outcome : Type 0 where
  returned : ℤ → Machine → Outcome
  switched : Machine → Outcome
  entered : Machine → Outcome
  cleaned : Machine → Outcome
  killed : Machine → Outcome

abbrev pub after : Outcome → Machine
after (returned rc s) = s
after (switched s) = s
after (entered s) = s
after (cleaned s) = s
after (killed s) = s

abbrev pub set_errno : ℕ → Machine → Machine
set_errno e s = record s { errno = e }

abbrev pub set_thread : ℕ → Thread → Machine → Machine
set_thread t th s = record s { threads = update s.threads t th }

-- `*retval = value`, where `retval` is not null.
abbrev pub store_at : Option ℕ → ℕ → Machine → Machine
store_at none v s = s
store_at (Option.some p) v s = record s { memory = update s.memory p v }

-- `swap_thread`: `context` is where the thread that is left goes on.
unfoldable pub swap_thread : ℕ → ℕ → Context → Machine → Machine
swap_thread prev next context s = set_thread prev (record (r.threads prev) { context = context }) r
  where
    r : Machine
    r = record s {
      current_thread = next;
      threads = update s.threads next (record (s.threads next) { state = running });
    }
