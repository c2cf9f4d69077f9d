-- ===== src/System/Locks/Calls.antt =====
-- Every call, fault and resumption keeps the mutexes and the semaphores coherent.
use user_level_thread_librar.Base.{ℕ, ◌≡◌, none, some, true, pos, arith}
use user_level_thread_librar.Machine.{
  Context, entry, in_yield, in_join, in_lock, in_sem_wait, in_cond_wait, in_sigwait, in_create,
  Caller, Policy, Machine, Mutex, Sem, after,
}
use user_level_thread_librar.Mutex.{
  thread_mutex_init, thread_mutex_destroy, thread_mutex_lock, thread_mutex_unlock,
}
use user_level_thread_librar.Mutex.Ownership.{is_guarded, mutex_calls-IsGuarded, lock-IsGuarded}
use user_level_thread_librar.Sem.{
  thread_sem_init, thread_sem_destroy, thread_sem_wait, thread_sem_post,
}
use user_level_thread_librar.Sem.Balance.{is_balanced, sem_calls-IsBalanced}
use user_level_thread_librar.Cond.{thread_cond_init, thread_cond_wait, cond_wait_resumed}
use user_level_thread_librar.Cond.Guarded.{thread_cond_wait-IsGuarded}
use user_level_thread_librar.Lifecycle.Exit.{sigsegv_handler}
use user_level_thread_librar.System.{
  Call, create, yield, yield_to, set_priority, exit, join, mutex_init, mutex_destroy, mutex_lock,
  mutex_unlock, sem_init, sem_destroy, sem_wait, sem_post, cond_init, cond_destroy, cond_signal,
  cond_broadcast, cond_wait, signal_send, sigwait, run_call, resume_at, resume, Step, calls,
  overflows, resumes, Reach, here, next,
}
use user_level_thread_librar.System.Locks.{IsCoherent}
use user_level_thread_librar.System.Locks.Kept.{
  KeepsLocks, yield_then-KeepsLocks, thread_yield_to-KeepsLocks, thread_set_priority-KeepsLocks,
}
use user_level_thread_librar.System.Locks.Blocked.{
  thread_signal_send-KeepsLocks, sigwait_round-KeepsLocks, thread_sigwait-KeepsLocks,
  thread_cond_broadcast-KeepsLocks, thread_cond_signal-KeepsLocks, thread_cond_destroy-KeepsLocks,
}
use user_level_thread_librar.System.Locks.Joined.{thread_join-KeepsLocks, join_resumed-KeepsLocks}
use user_level_thread_librar.System.Locks.Ended.{thread_exit-KeepsLocks, sigsegv_handler-KeepsLocks}
use user_level_thread_librar.System.Locks.Created.{
  thread_create-KeepsLocks, create_resumed-KeepsLocks,
}
use user_level_thread_librar.System.Locks.Apart.{
  sems-lock, sems-unlock, sems-destroy, sems-cond_wait, mutexes-wait, mutexes-post,
  mutexes-sem_init, mutexes-sem_destroy,
}

same_sems :
    {a b : ℕ → Sem}
    → b ≡ a
    → ((m : ℕ) → is_balanced (a m) ≡ true)
    → (m : ℕ) → is_balanced (b m) ≡ true
same_sems e g m = rw e (g m)

same_mutexes :
    {a b : ℕ → Mutex}
    → b ≡ a
    → ((m : ℕ) → is_guarded (a m) ≡ true)
    → (m : ℕ) → is_guarded (b m) ≡ true
same_mutexes e g m = rw e (g m)

kept : {s r : Machine} → KeepsLocks s r → IsCoherent s → IsCoherent r
kept k (g, b) = (same_mutexes k.mutexes g, same_sems k.sems b)

run_call-IsCoherent :
    (p : Policy) (c : Call) (s : Machine) → IsCoherent s → IsCoherent (after (run_call p c s))
unfolding run_call thread_mutex_init thread_mutex_destroy thread_mutex_lock thread_mutex_unlock
    thread_sem_init thread_sem_destroy thread_sem_wait thread_sem_post thread_cond_init
    thread_cond_wait
run_call-IsCoherent p (create n f a) s i = kept (thread_create-KeepsLocks p n f a s) i
run_call-IsCoherent p yield s i = kept (yield_then-KeepsLocks p in_yield s) i
run_call-IsCoherent p (yield_to t) s i = kept (thread_yield_to-KeepsLocks p t s) i
run_call-IsCoherent p (set_priority t n) s i = kept (thread_set_priority-KeepsLocks p t n s) i
run_call-IsCoherent p (exit retval) s i = kept (thread_exit-KeepsLocks p retval s) i
run_call-IsCoherent p (join t retval) s i = kept (thread_join-KeepsLocks t retval s) i
run_call-IsCoherent p (mutex_init none) s i = i
run_call-IsCoherent p (mutex_init (some m)) s (g, b) = (λ j. ground (arith, g j), b)
run_call-IsCoherent p (mutex_destroy none) s i = i
run_call-IsCoherent p (mutex_destroy (some m)) s (g, b) =
    ((mutex_calls-IsGuarded p m s g).2, same_sems (sems-destroy m s) b)
run_call-IsCoherent p (mutex_lock none) s i = i
run_call-IsCoherent p (mutex_lock (some m)) s (g, b) =
    ((mutex_calls-IsGuarded p m s g).0, same_sems (sems-lock Caller.program m s) b)
run_call-IsCoherent p (mutex_unlock none) s i = i
run_call-IsCoherent p (mutex_unlock (some m)) s (g, b) =
    ((mutex_calls-IsGuarded p m s g).1, same_sems (sems-unlock p m s) b)
run_call-IsCoherent p (sem_init none v) s i = i
run_call-IsCoherent p (sem_init (some m) v) s (g, b) =
    (same_mutexes (mutexes-sem_init m v s) g, (sem_calls-IsBalanced p m v s b).0)
run_call-IsCoherent p (sem_destroy none) s i = i
run_call-IsCoherent p (sem_destroy (some m)) s (g, b) =
    (same_mutexes (mutexes-sem_destroy m s) g, (sem_calls-IsBalanced p m (pos 0) s b).3)
run_call-IsCoherent p (sem_wait none) s i = i
run_call-IsCoherent p (sem_wait (some m)) s (g, b) =
    (same_mutexes (mutexes-wait m s) g, (sem_calls-IsBalanced p m (pos 0) s b).1)
run_call-IsCoherent p (sem_post none) s i = i
run_call-IsCoherent p (sem_post (some m)) s (g, b) =
    (same_mutexes (mutexes-post p m s) g, (sem_calls-IsBalanced p m (pos 0) s b).2)
run_call-IsCoherent p (cond_init none) s i = i
run_call-IsCoherent p (cond_init (some c)) s i = i
run_call-IsCoherent p (cond_destroy c) s i = kept (thread_cond_destroy-KeepsLocks c s) i
run_call-IsCoherent p (cond_signal c) s i = kept (thread_cond_signal-KeepsLocks p c s) i
run_call-IsCoherent p (cond_broadcast c) s i = kept (thread_cond_broadcast-KeepsLocks p c s) i
run_call-IsCoherent p (cond_wait none m) s i = i
run_call-IsCoherent p (cond_wait (some c) none) s i = i
run_call-IsCoherent p (cond_wait (some c) (some m)) s (g, b) =
    ((thread_cond_wait-IsGuarded p c m s g).0, same_sems (sems-cond_wait p c m s) b)
run_call-IsCoherent p (signal_send t sig) s i = kept (thread_signal_send-KeepsLocks p t sig s) i
run_call-IsCoherent p (sigwait set sig) s i = kept (thread_sigwait-KeepsLocks set sig s) i

resume_at-IsCoherent :
    (p : Policy) (ctx : Context) (s : Machine)
    → IsCoherent s
    → IsCoherent (after (resume_at p ctx s))
unfolding resume_at cond_wait_resumed
resume_at-IsCoherent p entry s i = i
resume_at-IsCoherent p in_yield s i = i
resume_at-IsCoherent p (in_join target retval) s i =
    kept (join_resumed-KeepsLocks target retval s) i
resume_at-IsCoherent p (in_lock m caller) s i = i
resume_at-IsCoherent p (in_sem_wait m) s i = i
resume_at-IsCoherent p (in_cond_wait c m) s (g, b) =
    (lock-IsGuarded Caller.cond_end m s g, same_sems (sems-lock Caller.cond_end m s) b)
resume_at-IsCoherent p (in_sigwait set sig) s i = kept (sigwait_round-KeepsLocks set sig s) i
resume_at-IsCoherent p (in_create c) s i = kept (create_resumed-KeepsLocks p c s) i

pub all-IsCoherent :
    (p : Policy) (c : Call) (fault : ℕ) (s : Machine)
    → IsCoherent s
    → IsCoherent (after (run_call p c s))
      × IsCoherent (after (sigsegv_handler p fault s))
      × IsCoherent (after (resume p s))
unfolding resume
all-IsCoherent p c fault s i = (
  run_call-IsCoherent p c s i,
  kept (sigsegv_handler-KeepsLocks p fault s) i,
  resume_at-IsCoherent p (s.threads s.current_thread).context s i,
)

Step-IsCoherent : {p : Policy} {s t : Machine} → IsCoherent s → Step p s t → IsCoherent t
Step-IsCoherent {p} {s} i (calls c o) = run_call-IsCoherent p c s i
Step-IsCoherent {p} {s} i (overflows fault t e) = (all-IsCoherent p yield fault s i).1
Step-IsCoherent {p} {s} i (resumes o) = (all-IsCoherent p yield 0 s i).2

pub Reach-IsCoherent : {p : Policy} {s t : Machine} → IsCoherent s → Reach p s t → IsCoherent t
Reach-IsCoherent i here = i
Reach-IsCoherent i (next r st) = Step-IsCoherent (Reach-IsCoherent i r) st
