-- ===== src/System/Results/All.antt =====
-- What every call and every resumption returns.
use user_level_thread_librar.Base.{◌≡◌, refl, inl, inr, none, some, true, List-cases}
use user_level_thread_librar.Machine.{
  Policy, Machine, Context, entry, in_yield, in_join, in_lock, in_sem_wait, in_cond_wait,
  in_sigwait, in_create, program, cond_end, cond_alone,
}
use user_level_thread_librar.Mutex.{thread_mutex_init}
use user_level_thread_librar.Sem.{thread_sem_post}
use user_level_thread_librar.Cond.{
  thread_cond_init, thread_cond_signal, thread_cond_broadcast, cond_wait_resumed,
}
use user_level_thread_librar.Scheduler.Queue.{pick_next-cons, pick_next-nil}
use user_level_thread_librar.Lifecycle.Exit.{thread_exit, leave}
use user_level_thread_librar.System.{
  Call, create, yield, yield_to, set_priority, exit, join, mutex_init, mutex_destroy, mutex_lock,
  mutex_unlock, sem_init, sem_destroy, sem_wait, sem_post, cond_init, cond_destroy, cond_signal,
  cond_broadcast, cond_wait, signal_send, sigwait, run_call, resume_at,
}
use user_level_thread_librar.System.Results.{is_code, codes, returns_in}
use user_level_thread_librar.System.Results.Calls.{
  yield_then-code, yield_to-code, set_priority-code, lock-code, mutex_lock-code, mutex_unlock-code,
  mutex_destroy-code, sem_wait-code, sem_init-code, sem_destroy-code, cond_destroy-code,
  cond_wait-code,
}
use user_level_thread_librar.System.Results.Blocking.{
  signal_send-code, sigwait_round-code, sigwait-code, join_resumed-code, join-code,
  create_resumed-code, create-code,
}

exit-code : (p : Policy) (v : _) (s : Machine) → returns_in is_code (thread_exit p v s) ≡ true
unfolding thread_exit
exit-code p v s =
    let l = leave p v s in
    elim (List-cases l.ready_queue) [
      | inl e ↦ rw (pick_next-nil l e, thread_exit) refl
      | inr (next, q, e) ↦ rw (pick_next-cons next q l e, thread_exit) refl
    ]

call-code : (p : Policy) (c : Call) (s : Machine) → returns_in (codes c) (run_call p c s) ≡ true
unfolding run_call thread_mutex_init thread_sem_post thread_cond_init thread_cond_signal
    thread_cond_broadcast
call-code p (create n f a) s = create-code p n f a s
call-code p yield s = yield_then-code p in_yield s
call-code p (yield_to t) s = yield_to-code p t s
call-code p (set_priority t n) s = set_priority-code p t n s
call-code p (exit v) s = exit-code p v s
call-code p (join t retval) s = join-code t retval s
call-code p (mutex_init none) s = refl
call-code p (mutex_init (some m)) s = refl
call-code p (mutex_destroy m) s = mutex_destroy-code m s
call-code p (mutex_lock m) s = mutex_lock-code m s
call-code p (mutex_unlock m) s = mutex_unlock-code p m s
call-code p (sem_init m v) s = sem_init-code m v s
call-code p (sem_destroy m) s = sem_destroy-code m s
call-code p (sem_wait m) s = sem_wait-code m s
call-code p (sem_post none) s = refl
call-code p (sem_post (some m)) s = refl
call-code p (cond_init none) s = refl
call-code p (cond_init (some c)) s = refl
call-code p (cond_destroy c) s = cond_destroy-code c s
call-code p (cond_signal none) s = refl
call-code p (cond_signal (some c)) s = refl
call-code p (cond_broadcast none) s = refl
call-code p (cond_broadcast (some c)) s = refl
call-code p (cond_wait c m) s = cond_wait-code p c m s
call-code p (signal_send t sig) s = signal_send-code p t sig s
call-code p (sigwait set sig) s = sigwait-code set sig s

resume-code :
    (p : Policy) (ctx : Context) (s : Machine) → returns_in is_code (resume_at p ctx s) ≡ true
unfolding resume_at cond_wait_resumed
resume-code p entry s = refl
resume-code p in_yield s = refl
resume-code p (in_join target retval) s = join_resumed-code target retval s
resume-code p (in_lock m program) s = refl
resume-code p (in_lock m cond_end) s = refl
resume-code p (in_lock m cond_alone) s = refl
resume-code p (in_sem_wait m) s = refl
resume-code p (in_cond_wait c m) s = lock-code cond_end m s
resume-code p (in_sigwait set sig) s = sigwait_round-code set sig s
resume-code p (in_create c) s = create_resumed-code p c s

-- Whatever the state and the arguments are, a call that returns, at once or when it is resumed,
-- returns 0 or -1, but for `thread_join`, which may also return EDEADLK at once.
pub all-code :
    (p : Policy) (c : Call) (ctx : Context) (s : Machine)
    → (returns_in (codes c) (run_call p c s) ≡ true)
      × (returns_in is_code (resume_at p ctx s) ≡ true)
all-code p c ctx s = (call-code p c s, resume-code p ctx s)
