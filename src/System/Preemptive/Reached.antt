-- ===== src/System/Preemptive/Reached.antt =====
-- Which calls return without `preem_block`.
use user_level_thread_librar.Base.{
  ℕ, ◌≡◌, refl, inl, inr, Option, none, some, Bool, true, false, not, ◌&&◌, ◌==◌, arith, is_none,
  Bool-cases, zero, suc,
}
use user_level_thread_librar.Machine.{Policy, Machine, Creation, StackEntry}
use user_level_thread_librar.Scheduler.{
  thread_ready_queue_empty, thread_yield_to, thread_set_priority,
}
use user_level_thread_librar.Mutex.{
  thread_mutex_init, thread_mutex_destroy, thread_mutex_lock, thread_mutex_unlock,
}
use user_level_thread_librar.Sem.{
  thread_sem_init, thread_sem_destroy, thread_sem_wait, thread_sem_post,
}
use user_level_thread_librar.Cond.{
  thread_cond_init, thread_cond_destroy, thread_cond_wait, thread_cond_signal,
  thread_cond_broadcast,
}
use user_level_thread_librar.Signal.{thread_signal_send, thread_sigwait}
use user_level_thread_librar.Pool.{stack_pool_alloc, reclaim_deferred_stacks_all}
use user_level_thread_librar.Lifecycle.Objects.{thread_alloc}
use user_level_thread_librar.Lifecycle.Join.{thread_join}
use user_level_thread_librar.Lifecycle.Create.{
  create_slot, create_finish, create_fail, create_round, create_resumed, create_with,
  create_initialized, initialize, refill_pool, thread_create,
}
use user_level_thread_librar.System.{
  Call, create, yield, yield_to, set_priority, exit, join, mutex_init, mutex_destroy, mutex_lock,
  mutex_unlock, sem_init, sem_destroy, sem_wait, sem_post, cond_init, cond_destroy, cond_signal,
  cond_broadcast, cond_wait, signal_send, sigwait, run_call,
}
use user_level_thread_librar.System.Preemptive.{
  in_program, phase_of, reaches_block, create_waits, waits_for_stack,
}

negated : (b : Bool) → not b ≡ false → b ≡ true
negated true h = refl
negated false h = cc

phase-create_slot :
    (p : Policy) (c : Creation) (e : StackEntry) (r : Option ℕ × Machine)
    → phase_of (create_slot p c e r) ≡ in_program
phase-create_slot p c e (none, s) = refl
phase-create_slot p c e (some slot, s) = refl

phase-create_round :
    (p : Policy) (n : ℕ) (c : Creation) (r : Option StackEntry × Machine)
    → (is_none r.0 && not (thread_ready_queue_empty (reclaim_deferred_stacks_all r.1))) ≡ false
    → phase_of (create_round p n c r) ≡ in_program
unfolding create_round create_finish create_fail
phase-create_round p zero c (some e, s) h = phase-create_slot p c e _
phase-create_round p (suc n) c (some e, s) h = phase-create_slot p c e _
phase-create_round p zero c (none, s) h = refl
phase-create_round p (suc n) c (none, s) h =
    rw (negated (thread_ready_queue_empty (reclaim_deferred_stacks_all s)) h, create_round) refl

phase-create_with :
    (p : Policy) (newthread func arg : ℕ) (r : Option ℕ × Machine)
    → waits_for_stack r ≡ false
    → phase_of (create_with p newthread func arg r) ≡ in_program
unfolding create_resumed
phase-create_with p newthread func arg (none, s) h = refl
phase-create_with p newthread func arg (some newth, s) h =
    phase-create_round p _ _ (stack_pool_alloc (refill_pool s)) h

phase-create_initialized :
    (p : Policy) (newthread func arg : ℕ) (r : Bool × Machine)
    → create_waits r ≡ false
    → phase_of (create_initialized p newthread func arg r) ≡ in_program
phase-create_initialized p newthread func arg (false, s) h = refl
phase-create_initialized p newthread func arg (true, s) h =
    phase-create_with p newthread func arg (thread_alloc s) h

rejected_join :
    (p : Policy) (t : ℕ) (retval : Option ℕ) (s : Machine)
    → reaches_block p (join (some t) retval) s ≡ false
    → phase_of (thread_join (some t) retval s) ≡ in_program
unfolding reaches_block thread_join
rejected_join p t retval s h = elim (Bool-cases (is_none (s.threads t).joined_by)) [
  | inr n ↦ rw (n, thread_join) refl
  | inl n ↦
      let own : (t == s.current_thread) ≡ true = ground (arith, n, h) in
      rw (n, own, thread_join) refl
]

-- A call that does not get to `preem_block` returns to the program.
pub unreached_returns :
    (p : Policy) (c : Call) (s : Machine)
    → reaches_block p c s ≡ false
    → phase_of (run_call p c s) ≡ in_program
unfolding reaches_block run_call thread_create thread_yield_to thread_set_priority thread_mutex_init
    thread_mutex_destroy thread_mutex_lock thread_mutex_unlock thread_sem_init thread_sem_destroy
    thread_sem_wait thread_sem_post thread_cond_init thread_cond_destroy thread_cond_wait
    thread_cond_signal thread_cond_broadcast thread_signal_send thread_sigwait thread_join
unreached_returns p (create none func arg) s h = refl
unreached_returns p (create (some n) none arg) s h = refl
unreached_returns p (create (some n) (some f) arg) s h =
    phase-create_initialized p n f arg (initialize s) (ground (arith, h))
unreached_returns p yield s h = cc
unreached_returns p (yield_to none) s h = refl
unreached_returns p (yield_to (some t)) s h = cc
unreached_returns p (set_priority none n) s h = refl
unreached_returns p (set_priority (some t) n) s h = cc
unreached_returns p (exit retval) s h = cc
unreached_returns p (join none retval) s h = refl
unreached_returns p (join (some t) retval) s h = rejected_join p t retval s h
unreached_returns p (mutex_init none) s h = refl
unreached_returns p (mutex_init (some m)) s h = refl
unreached_returns p (mutex_destroy none) s h = refl
unreached_returns p (mutex_destroy (some m)) s h = ground arith
unreached_returns p (mutex_lock none) s h = refl
unreached_returns p (mutex_lock (some m)) s h = cc
unreached_returns p (mutex_unlock none) s h = refl
unreached_returns p (mutex_unlock (some m)) s h = cc
unreached_returns p (sem_init none v) s h = refl
unreached_returns p (sem_init (some m) v) s h = ground arith
unreached_returns p (sem_destroy none) s h = refl
unreached_returns p (sem_destroy (some m)) s h = ground arith
unreached_returns p (sem_wait none) s h = refl
unreached_returns p (sem_wait (some m)) s h = cc
unreached_returns p (sem_post none) s h = refl
unreached_returns p (sem_post (some m)) s h = cc
unreached_returns p (cond_init none) s h = refl
unreached_returns p (cond_init (some c)) s h = refl
unreached_returns p (cond_destroy none) s h = refl
unreached_returns p (cond_destroy (some c)) s h = ground arith
unreached_returns p (cond_signal none) s h = refl
unreached_returns p (cond_signal (some c)) s h = cc
unreached_returns p (cond_broadcast none) s h = refl
unreached_returns p (cond_broadcast (some c)) s h = cc
unreached_returns p (cond_wait none m) s h = refl
unreached_returns p (cond_wait (some c) none) s h = refl
unreached_returns p (cond_wait (some c) (some m)) s h = cc
unreached_returns p (signal_send none sig) s h = refl
unreached_returns p (signal_send (some t) sig) s h = rw (h) refl
unreached_returns p (sigwait set none) s h = refl
unreached_returns p (sigwait set (some sig)) s h = ground (arith, h)
