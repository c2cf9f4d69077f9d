-- ===== src/System/Boot.antt =====
-- The state of the process before the first call: src/thread.c gives the main thread its initial
-- values, and every other structure holds no thread.
use user_level_thread_librar.Base.{
  ℕ, ◌≡◌, Option, none, false, List, [], ◌==◌, if◌then◌else◌, pos, arith,
}
use user_level_thread_librar.Machine.{Machine, Thread, Context, State, main_thread}
use user_level_thread_librar.Abstract.{Channel, on_join, on_signal}
use user_level_thread_librar.Refinement.{waits_in, IsSound}

-- Memory in which no thread lives.
abbrev pub blank : Thread
blank = record {
  context = Context.in_yield;
  start_fun = 0;
  arg = 0;
  retval = 0;
  stack_map = none;
  stack_base = 0;
  joined_by = none;
  waiting_for = none;
  head_joiner = none;
  id = 0;
  state = State.terminated;
  valgrind_stack_id = 0;
  priority = pos 0;
  in_ready_queue = false;
  in_zombie_queue = false;
  stack_overflow = false;
  pending_signals = 0;
  blocked_signals = 0;
  waited_signals = 0;
  waiting_for_signal = false;
}

-- The initialiser of `main_thread`.
abbrev pub main_struct : Thread
main_struct = record blank { state = State.running; priority = pos 10 }

-- The memory that the system is going to give is `replies`.
abbrev pub boot : List (Option ℕ) → Machine
boot replies = record {
  threads = λ t. if t == main_thread then main_struct else blank;
  current_thread = main_thread;
  ready_queue = [];
  zombie_queue = [];
  zombie_initialized = false;
  cleanup_registered = false;
  exit_handlers = [];
  mutexes = λ m. record { locked = pos 0; waiting_queue = [] };
  sems = λ m. record { count = pos 0; waiting_queue = [] };
  conds = λ c. record { waiting_queue = [] };
  head_refs = λ r. 0;
  head_ref_active_chunk = none;
  head_ref_active_index = 0;
  head_ref_chunks_count = 0;
  head_ref_chunks_cap = 0;
  next_thread_id = 1;
  scheduler_initialized = false;
  thread_pool = [];
  deferred_stacks = [];
  stack_pool = [];
  replies = replies;
  unmapped = [];
  freed = [];
  memory = λ p. 0;
  errno = 0;
}

boot-empty : (replies : List (Option ℕ)) (d : Channel) → waits_in (boot replies) d ≡ []
boot-empty replies (on_join t) = ground arith
boot-empty replies (on_signal t) = ground arith
boot-empty replies d = ground arith

pub boot-IsSound : (replies : List (Option ℕ)) → IsSound (boot replies)
boot-IsSound replies = record {
  ready_distinct = tt;
  ready_queued = λ t. ground arith;
  queued_ready = λ t. ground arith;
  one_running = λ t. ground arith;
  waiting = λ c t. rw (boot-empty replies c) (ground arith);
  waits_distinct = λ c. rw (boot-empty replies c) tt;
}
