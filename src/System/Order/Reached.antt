-- ===== src/System/Order/Reached.antt =====
-- The order of the ready queue in every state that the library reaches.
use user_level_thread_librar.Base.{ℕ, ◌≡◌, refl, sym, ◌∙◌, inl, inr, none, some, Bool-cases}
use user_level_thread_librar.Machine.{
  prio, Machine, Context, entry, in_yield, in_join, in_lock, in_sem_wait, in_cond_wait, in_sigwait,
  in_create, Caller, switched, after,
}
use user_level_thread_librar.Refinement.{IsSound}
use user_level_thread_librar.Scheduler.{thread_set_priority}
use user_level_thread_librar.Scheduler.Priority.{IsOrdered, thread_yield-IsOrdered}
use user_level_thread_librar.Scheduler.Reordered.{
  thread_yield_to-IsOrdered, scheduler_calls-IsOrdered,
}
use user_level_thread_librar.Scheduler.Same.{flagged-IsOrdered}
use user_level_thread_librar.Mutex.{
  thread_mutex_init, thread_mutex_destroy, thread_mutex_lock, thread_mutex_unlock,
}
use user_level_thread_librar.Sem.{
  thread_sem_init, thread_sem_destroy, thread_sem_wait, thread_sem_post,
}
use user_level_thread_librar.Cond.{
  thread_cond_init, thread_cond_wait, cond_wait_resumed, thread_cond_signal, thread_cond_broadcast,
}
use user_level_thread_librar.Lifecycle.Exit.{sigsegv_handler, in_guard_page}
use user_level_thread_librar.Lifecycle.Exit.Overflow.{flagged, handler_hit, handler_missed}
use user_level_thread_librar.System.{
  Call, create, yield, yield_to, set_priority, exit, join, mutex_init, mutex_destroy, mutex_lock,
  mutex_unlock, sem_init, sem_destroy, sem_wait, sem_post, cond_init, cond_destroy, cond_signal,
  cond_broadcast, cond_wait, signal_send, sigwait, run_call, resume_at, resume, IsOrderly,
  ResumesOrderly, Step, calls, overflows, resumes, Reach, here, next,
}
use user_level_thread_librar.System.Safety.{Reach-IsSound}
use user_level_thread_librar.System.Order.Calls.{
  lock-IsOrdered, unlock-IsOrdered, mutex_destroy-IsOrdered, sem_wait-IsOrdered, sem_post-IsOrdered,
  sem_init-IsOrdered, sem_destroy-IsOrdered, cond_wait-IsOrdered, wake_all-IsOrdered,
  wake_first-IsOrdered, cond_destroy-IsOrdered,
}
use user_level_thread_librar.System.Order.Blocked.{
  signal_send-IsOrdered, sigwait_round-IsOrdered, sigwait-IsOrdered, exit-IsOrdered,
}
use user_level_thread_librar.System.Order.Joined.{join-IsOrdered, join_resumed-IsOrdered}
use user_level_thread_librar.System.Order.Created.{create-IsOrdered, create_resumed-IsOrdered}

run_call-IsOrdered :
    (c : Call) (s : Machine)
    → IsSound s
    → IsOrderly prio c s
    → IsOrdered s
    → IsOrdered (after (run_call prio c s))
unfolding run_call thread_set_priority thread_mutex_init thread_mutex_destroy thread_mutex_lock
    thread_mutex_unlock thread_sem_init thread_sem_destroy thread_sem_wait thread_sem_post
    thread_cond_init thread_cond_wait thread_cond_signal thread_cond_broadcast
run_call-IsOrdered (create n f a) s i (u, g) o = create-IsOrdered n f a s i u o
run_call-IsOrdered yield s i g o = thread_yield-IsOrdered s i o
run_call-IsOrdered (yield_to t) s i g o = thread_yield_to-IsOrdered t s i o
run_call-IsOrdered (set_priority none n) s i g o = o
run_call-IsOrdered (set_priority (some t) n) s i g o = (scheduler_calls-IsOrdered t n s i o).2
run_call-IsOrdered (exit v) s i (t, e) o = exit-IsOrdered v s t e o
run_call-IsOrdered (join t retval) s i g o = join-IsOrdered t retval s o
run_call-IsOrdered (mutex_init none) s i g o = o
run_call-IsOrdered (mutex_init (some m)) s i g o = o
run_call-IsOrdered (mutex_destroy none) s i g o = o
run_call-IsOrdered (mutex_destroy (some m)) s i g o = mutex_destroy-IsOrdered m s o
run_call-IsOrdered (mutex_lock none) s i g o = o
run_call-IsOrdered (mutex_lock (some m)) s i g o = lock-IsOrdered Caller.program m s o
run_call-IsOrdered (mutex_unlock none) s i g o = o
run_call-IsOrdered (mutex_unlock (some m)) s i g o = unlock-IsOrdered m s o
run_call-IsOrdered (sem_init none v) s i g o = o
run_call-IsOrdered (sem_init (some m) v) s i g o = sem_init-IsOrdered m v s o
run_call-IsOrdered (sem_destroy none) s i g o = o
run_call-IsOrdered (sem_destroy (some m)) s i g o = sem_destroy-IsOrdered m s o
run_call-IsOrdered (sem_wait none) s i g o = o
run_call-IsOrdered (sem_wait (some m)) s i g o = sem_wait-IsOrdered m s o
run_call-IsOrdered (sem_post none) s i g o = o
run_call-IsOrdered (sem_post (some m)) s i g o = sem_post-IsOrdered m s o
run_call-IsOrdered (cond_init none) s i g o = o
run_call-IsOrdered (cond_init (some c)) s i g o = o
run_call-IsOrdered (cond_destroy c) s i g o = cond_destroy-IsOrdered c s o
run_call-IsOrdered (cond_signal none) s i g o = o
run_call-IsOrdered (cond_signal (some c)) s i g o = wake_first-IsOrdered c _ s o
run_call-IsOrdered (cond_broadcast none) s i g o = o
run_call-IsOrdered (cond_broadcast (some c)) s i g o = wake_all-IsOrdered c _ s o
run_call-IsOrdered (cond_wait none m) s i g o = o
run_call-IsOrdered (cond_wait (some c) none) s i g o = o
run_call-IsOrdered (cond_wait (some c) (some m)) s i g o = cond_wait-IsOrdered c m s o
run_call-IsOrdered (signal_send t sig) s i g o = signal_send-IsOrdered t sig s o
run_call-IsOrdered (sigwait set sig) s i g o = sigwait-IsOrdered set sig s o

resume_at-IsOrdered :
    (ctx : Context) (s : Machine)
    → IsSound s
    → ResumesOrderly prio ctx s
    → IsOrdered s
    → IsOrdered (after (resume_at prio ctx s))
unfolding resume_at cond_wait_resumed
resume_at-IsOrdered entry s i g o = o
resume_at-IsOrdered in_yield s i g o = o
resume_at-IsOrdered (in_join target retval) s i g o = join_resumed-IsOrdered target retval s o
resume_at-IsOrdered (in_lock m caller) s i g o = o
resume_at-IsOrdered (in_sem_wait m) s i g o = o
resume_at-IsOrdered (in_cond_wait c m) s i g o = lock-IsOrdered Caller.cond_end m s o
resume_at-IsOrdered (in_sigwait set sig) s i g o = sigwait_round-IsOrdered set sig s o
resume_at-IsOrdered (in_create c) s i (u, g) o = create_resumed-IsOrdered c s i u o

handler-IsOrdered :
    (fault : ℕ) (s t : Machine)
    → sigsegv_handler prio fault s ≡ switched t
    → IsOrdered s
    → IsOrdered (after (sigsegv_handler prio fault s))
handler-IsOrdered fault s t e o =
    elim (Bool-cases (in_guard_page (s.threads s.current_thread).stack_map fault)) [
      | inl y ↦
          let hit = handler_hit prio fault s y in
          rw hit (
            exit-IsOrdered 0 (flagged s) t (sym hit ∙ e)
              (flagged-IsOrdered s.current_thread _ s refl o))
      | inr n ↦ rw (handler_missed prio fault s n) o
    ]

Step-IsOrdered : {s t : Machine} → IsSound s → Step prio s t → IsOrdered s → IsOrdered t
unfolding resume
Step-IsOrdered {s} i (calls c g) o = run_call-IsOrdered c s i g o
Step-IsOrdered {s} i (overflows fault t e) o = handler-IsOrdered fault s t e o
Step-IsOrdered {s} i (resumes g) o = resume_at-IsOrdered _ s i g o

-- Under PRIO, from a sound state with a queue in the order of descending priority, whatever orderly
-- calls, faults and resumptions happen, the ready queue is in that order.
pub Reach-IsOrdered : {s t : Machine} → IsSound s → IsOrdered s → Reach prio s t → IsOrdered t
Reach-IsOrdered i o here = o
Reach-IsOrdered i o (next r st) = Step-IsOrdered (Reach-IsSound i r) st (Reach-IsOrdered i o r)
