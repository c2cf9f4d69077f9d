-- ===== src/System/Safety.antt =====
-- All calls and resumptions against the abstract scheduler.
use user_level_thread_librar.Base.{◌≡◌, refl, sym, subst, ap, inl, inr, none, some}
use user_level_thread_librar.Machine.{
  Policy, Machine, Context, entry, in_yield, in_join, in_lock, in_sem_wait, in_cond_wait,
  in_sigwait, in_create, Outcome, after,
}
use user_level_thread_librar.Abstract.{Moves, done}
use user_level_thread_librar.Abstract.Preservation.{Moves-Inv}
use user_level_thread_librar.Refinement.{view, IsSound}
use user_level_thread_librar.Scheduler.Refinement.{yield_then-Moves}
use user_level_thread_librar.Scheduler.Directed.{thread_yield_to-Moves}
use user_level_thread_librar.Scheduler.SetPriority.{thread_set_priority-Moves}
use user_level_thread_librar.Mutex.{thread_mutex_init}
use user_level_thread_librar.Mutex.Refinement.{
  thread_mutex_init-Moves, thread_mutex_destroy-Moves, thread_mutex_lock-Moves,
  thread_mutex_unlock-Moves,
}
use user_level_thread_librar.Sem.{thread_sem_init}
use user_level_thread_librar.Sem.Refinement.{
  thread_sem_init-Moves, thread_sem_destroy-Moves, thread_sem_wait-Moves, thread_sem_post-Moves,
}
use user_level_thread_librar.Cond.{thread_cond_init}
use user_level_thread_librar.Cond.Refinement.{
  thread_cond_init-Moves, thread_cond_destroy-Moves, thread_cond_wait-Moves,
  cond_wait_resumed-Moves, thread_cond_signal-Moves, thread_cond_broadcast-Moves,
}
use user_level_thread_librar.Signal.Refinement.{
  thread_signal_send-Moves, thread_sigwait-Moves, sigwait_round-Moves,
}
use user_level_thread_librar.Lifecycle.Create.Rounds.{create_resumed-Moves, GoesOn}
use user_level_thread_librar.Lifecycle.Create.Call.{thread_create-Moves}
use user_level_thread_librar.Lifecycle.Exit.Refinement.{thread_exit-Moves}
use user_level_thread_librar.Lifecycle.Exit.Overflow.{sigsegv_handler-Moves}
use user_level_thread_librar.Lifecycle.Join.Refinement.{thread_join-Moves}
use user_level_thread_librar.Lifecycle.Join.Claim.{join_resumed-Moves}
use user_level_thread_librar.System.{
  Call, create, yield, yield_to, set_priority, exit, join, mutex_init, mutex_destroy, mutex_lock,
  mutex_unlock, sem_init, sem_destroy, sem_wait, sem_post, cond_init, cond_destroy, cond_signal,
  cond_broadcast, cond_wait, signal_send, sigwait, run_call, resume_at, resume, IsOrderly,
  ResumesOrderly, Step, calls, overflows, resumes, Reach, here, next,
}

GoesOn-after : {o : Outcome} {t : Machine} → GoesOn o t → t ≡ after o
GoesOn-after (inl h) = ap after (sym h)
GoesOn-after (inr h) = ap after (sym h)

run_call-Moves :
    (p : Policy) (c : Call) (s : Machine)
    → IsSound s
    → IsOrderly p c s
    → Moves (view s) (view (after (run_call p c s)))
unfolding run_call thread_mutex_init thread_sem_init thread_cond_init
run_call-Moves p (create n f a) s i (u, (t, g)) =
    subst (λ v. Moves (view s) (view v)) (GoesOn-after g) (thread_create-Moves p n f a s t i u g)
run_call-Moves p yield s i o = yield_then-Moves p in_yield s i (λ t. refl)
run_call-Moves p (yield_to t) s i o = thread_yield_to-Moves p t s i
run_call-Moves p (set_priority t n) s i o = thread_set_priority-Moves p t n s i
run_call-Moves p (exit retval) s i (t, e) =
    subst (λ v. Moves (view s) (view v)) (ap after (sym e)) (thread_exit-Moves p retval s t i e)
run_call-Moves p (join t retval) s i o = thread_join-Moves t retval s i o
run_call-Moves p (mutex_init none) s i o = done
run_call-Moves p (mutex_init (some m)) s i o = thread_mutex_init-Moves m s i o
run_call-Moves p (mutex_destroy m) s i o = thread_mutex_destroy-Moves m s i
run_call-Moves p (mutex_lock m) s i o = thread_mutex_lock-Moves m s i
run_call-Moves p (mutex_unlock m) s i o = thread_mutex_unlock-Moves p m s i
run_call-Moves p (sem_init none v) s i o = done
run_call-Moves p (sem_init (some m) v) s i o = thread_sem_init-Moves m v s i o
run_call-Moves p (sem_destroy m) s i o = thread_sem_destroy-Moves m s i
run_call-Moves p (sem_wait m) s i o = thread_sem_wait-Moves m s i
run_call-Moves p (sem_post m) s i o = thread_sem_post-Moves p m s i
run_call-Moves p (cond_init none) s i o = done
run_call-Moves p (cond_init (some c)) s i o = thread_cond_init-Moves c s i o
run_call-Moves p (cond_destroy c) s i o = thread_cond_destroy-Moves c s i
run_call-Moves p (cond_signal c) s i o = thread_cond_signal-Moves p c s i
run_call-Moves p (cond_broadcast c) s i o = thread_cond_broadcast-Moves p c s i
run_call-Moves p (cond_wait c m) s i o = thread_cond_wait-Moves p c m s i
run_call-Moves p (signal_send t sig) s i o = thread_signal_send-Moves p t sig s i
run_call-Moves p (sigwait set sig) s i o = thread_sigwait-Moves set sig s i

resume_at-Moves :
    (p : Policy) (ctx : Context) (s : Machine)
    → IsSound s
    → ResumesOrderly p ctx s
    → Moves (view s) (view (after (resume_at p ctx s)))
unfolding resume_at
resume_at-Moves p entry s i o = done
resume_at-Moves p in_yield s i o = done
resume_at-Moves p (in_join target retval) s i o = join_resumed-Moves target retval s i
resume_at-Moves p (in_lock m caller) s i o = done
resume_at-Moves p (in_sem_wait m) s i o = done
resume_at-Moves p (in_cond_wait c m) s i o = cond_wait_resumed-Moves m s i
resume_at-Moves p (in_sigwait set sig) s i o = sigwait_round-Moves set sig s i
resume_at-Moves p (in_create c) s i (u, (t, g)) =
    subst (λ v. Moves (view s) (view v)) (GoesOn-after g) (create_resumed-Moves p c s t i u g)

-- From a sound state, each orderly call, on each of its branches, and each orderly resumption is a
-- sequence of moves of the abstract scheduler, for either policy.
pub Step-Moves : {p : Policy} {s t : Machine} → IsSound s → Step p s t → Moves (view s) (view t)
unfolding resume
Step-Moves {p} {s} i (calls c o) = run_call-Moves p c s i o
Step-Moves {p} {s} i (overflows fault t e) =
    subst (λ v. Moves (view s) (view v)) (ap after (sym e)) (sigsegv_handler-Moves p fault s t i e)
Step-Moves {p} {s} i (resumes o) = resume_at-Moves p _ s i o

-- A state that orderly calls and resumptions reach from a sound state is sound: one thread runs,
-- the ready threads are queued, and each blocked thread waits in the one queue that its call names.
pub Reach-IsSound : {p : Policy} {s t : Machine} → IsSound s → Reach p s t → IsSound t
Reach-IsSound i here = i
Reach-IsSound i (next r st) = Moves-Inv (Step-Moves (Reach-IsSound i r) st) (Reach-IsSound i r)
