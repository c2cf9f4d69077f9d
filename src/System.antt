-- ===== src/System.antt =====
-- The library as a whole: the calls that the running thread makes, and what happens when a thread
-- is resumed after a switch. What the program does between two calls is not the library's.
pub mod Boot
pub mod Safety
pub mod Locks
pub mod Order
pub mod Results
pub mod Preemptive
use user_level_thread_librar.Base.{ℕ, ◌≡◌, ◌≢◌, Option, none, some, List, [], ℤ}
use user_level_thread_librar.Machine.{
  Policy, Machine, Context, entry, in_yield, in_join, in_lock, in_sem_wait, in_cond_wait,
  in_sigwait, in_create, Outcome, returned, entered, zero_rc, after,
}
use user_level_thread_librar.Scheduler.{thread_yield, thread_yield_to, thread_set_priority}
use user_level_thread_librar.Mutex.{
  thread_mutex_init, thread_mutex_destroy, thread_mutex_lock, thread_mutex_unlock, caller_result,
}
use user_level_thread_librar.Sem.{
  thread_sem_init, thread_sem_destroy, thread_sem_wait, thread_sem_post,
}
use user_level_thread_librar.Cond.{
  thread_cond_init, thread_cond_destroy, thread_cond_wait, cond_wait_resumed, thread_cond_signal,
  thread_cond_broadcast,
}
use user_level_thread_librar.Signal.{thread_signal_send, thread_sigwait, sigwait_round}
use user_level_thread_librar.Lifecycle.Create.{thread_create, create_resumed}
use user_level_thread_librar.Lifecycle.Exit.{thread_exit, sigsegv_handler}
use user_level_thread_librar.Lifecycle.Join.{thread_join, join_resumed}
use user_level_thread_librar.Lifecycle.Create.Rounds.{GoesOn, IsUnused}
use user_level_thread_librar.Lifecycle.Create.Call.{AllocatesUnused}

-- The functions of include/thread.h, include/thread_sem.h and include/thread_cond.h.
pub data Call : Type 0 where
  create : Option ℕ → Option ℕ → ℕ → Call
  yield : Call
  yield_to : Option ℕ → Call
  set_priority : Option ℕ → ℤ → Call
  exit : ℕ → Call
  join : Option ℕ → Option ℕ → Call
  mutex_init mutex_destroy mutex_lock mutex_unlock : Option ℕ → Call
  sem_init : Option ℕ → ℤ → Call
  sem_destroy sem_wait sem_post : Option ℕ → Call
  cond_init cond_destroy cond_signal cond_broadcast : Option ℕ → Call
  cond_wait : Option ℕ → Option ℕ → Call
  signal_send : Option ℕ → ℤ → Call
  sigwait : ℕ → Option ℕ → Call

unfoldable pub run_call : Policy → Call → Machine → Outcome
run_call p (create newthread func arg) s = thread_create p newthread func arg s
run_call p yield s = thread_yield p s
run_call p (yield_to t) s = thread_yield_to p t s
run_call p (set_priority t n) s = thread_set_priority p t n s
run_call p (exit retval) s = thread_exit p retval s
run_call p (join t retval) s = thread_join t retval s
run_call p (mutex_init m) s = thread_mutex_init m s
run_call p (mutex_destroy m) s = thread_mutex_destroy m s
run_call p (mutex_lock m) s = thread_mutex_lock m s
run_call p (mutex_unlock m) s = thread_mutex_unlock p m s
run_call p (sem_init m v) s = thread_sem_init m v s
run_call p (sem_destroy m) s = thread_sem_destroy m s
run_call p (sem_wait m) s = thread_sem_wait m s
run_call p (sem_post m) s = thread_sem_post p m s
run_call p (cond_init c) s = thread_cond_init c s
run_call p (cond_destroy c) s = thread_cond_destroy c s
run_call p (cond_signal c) s = thread_cond_signal p c s
run_call p (cond_broadcast c) s = thread_cond_broadcast p c s
run_call p (cond_wait c m) s = thread_cond_wait p c m s
run_call p (signal_send t sig) s = thread_signal_send p t sig s
run_call p (sigwait set sig) s = thread_sigwait set sig s

-- What the current thread does when `fast_swap_context` or `fast_restore_context` has resumed it.
unfoldable pub resume_at : Policy → Context → Machine → Outcome
resume_at p entry s = entered s
resume_at p in_yield s = returned zero_rc s
resume_at p (in_join target retval) s = join_resumed target retval s
resume_at p (in_lock m caller) s = returned (caller_result caller zero_rc) s
resume_at p (in_sem_wait m) s = returned zero_rc s
resume_at p (in_cond_wait c m) s = cond_wait_resumed m s
resume_at p (in_sigwait set sig) s = sigwait_round set sig s
resume_at p (in_create c) s = create_resumed p c s

unfoldable pub resume : Policy → Machine → Outcome
unfolding resume_at
resume p s = resume_at p (s.threads s.current_thread).context s

-- What the program and the system must not do. An object is not initialised while threads wait on
-- it; `thread_join` finds another thread to run; a structure from `malloc` or the pool holds no
-- live thread, and a creation does not fail; and not the last thread ends.
abbrev pub IsOrderly : Policy → Call → Machine → Type 0
IsOrderly p (create newthread func arg) s =
    AllocatesUnused s × ((t : Machine) × GoesOn (thread_create p newthread func arg s) t)
IsOrderly p (exit retval) s = (t : Machine) × (thread_exit p retval s ≡ Outcome.switched t)
IsOrderly p (join t retval) s = s.ready_queue ≢ []
IsOrderly p (mutex_init (some m)) s = (s.mutexes m).waiting_queue ≡ []
IsOrderly p (sem_init (some m) v) s = (s.sems m).waiting_queue ≡ []
IsOrderly p (cond_init (some c)) s = (s.conds c).waiting_queue ≡ []
IsOrderly p _ s = Unit {0}

-- The same of the thread that is resumed.
abbrev pub ResumesOrderly : Policy → Context → Machine → Type 0
ResumesOrderly p (in_create c) s =
    IsUnused c.newth s × ((t : Machine) × GoesOn (create_resumed p c s) t)
ResumesOrderly p _ s = Unit {0}

-- A call, a fault in the guard page of the running thread after which another thread runs, or a
-- resumption.
pub data Step (p : Policy) (s : Machine) : Machine → Type 0 where
  calls : (c : Call) → IsOrderly p c s → Step p s (after (run_call p c s))
  overflows :
      (fault : ℕ) (t : Machine)
      → sigsegv_handler p fault s ≡ Outcome.switched t
      → Step p s (after (sigsegv_handler p fault s))
  resumes : ResumesOrderly p (s.threads s.current_thread).context s → Step p s (after (resume p s))

pub data Reach (p : Policy) (s : Machine) : Machine → Type 0 where
  here : Reach p s s
  next : {t u : Machine} → Reach p s t → Step p t u → Reach p s u
