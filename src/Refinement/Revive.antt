-- ===== src/Refinement/Revive.antt =====
-- The three lines by which `thread_mutex_unlock`, `thread_sem_post`, `thread_cond_signal`,
-- `thread_signal_send` and `thread_exit` wake a thread, seen as `Wake`.
use user_level_thread_librar.Base.{
  ℕ, ◌≡◌, sym, subst, true, false, not, ◌&&◌, ◌==◌, arith, elem, Distinct,
}
use user_level_thread_librar.Machine.{Policy, Machine, State}
use user_level_thread_librar.Scheduler.{thread_scheduler_enqueue, revive}
use user_level_thread_librar.Scheduler.Queue.{elem-revive, Distinct-revive}
use user_level_thread_librar.Abstract.{Channel, same, Wake}
use user_level_thread_librar.Refinement.{view, waits_in, IsSound}

-- `r` is `s` with the waiter `x` taken out of the queue of `c`.
pub record Unqueued (c : Channel) (x : ℕ) (s r : Machine) : Type 0 where
  pub waiter : elem x (waits_in s c) ≡ true
  pub current : r.current_thread ≡ s.current_thread
  pub ready_queue : r.ready_queue ≡ s.ready_queue
  pub state : (t : ℕ) → (r.threads t).state ≡ (s.threads t).state
  pub queued : (t : ℕ) → (r.threads t).in_ready_queue ≡ (s.threads t).in_ready_queue
  pub context : (t : ℕ) → (r.threads t).context ≡ (s.threads t).context
  pub waits :
      (d : Channel) (t : ℕ)
      → elem t (waits_in r d) ≡ (elem t (waits_in s d) && not (t == x && same d c))
  pub waits_distinct : (d : Channel) → Distinct (waits_in r d)

module _ (policy : Policy) {c : Channel} {x : ℕ} {s r : Machine} (i : IsSound s)
    (u : Unqueued c x s r) where
  waiter_state : (s.threads x).state ≡ State.blocked
  waiter_state = ground (arith, u.waiter, i.waiting c x)

  waiter_unqueued : (s.threads x).in_ready_queue ≡ false
  waiter_unqueued = ground (arith, waiter_state, i.queued_ready x)

  pub waits-revive : (d : Channel) → waits_in (revive policy x r) d ≡ waits_in r d
  unfolding revive thread_scheduler_enqueue
  waits-revive (Channel.on_join t) =
      ground (arith, waiter_state, u.state x, u.queued x, waiter_unqueued)
  waits-revive (Channel.on_signal t) = ground (arith, u.queued x, waiter_unqueued)
  waits-revive _ = ground (arith, u.queued x, waiter_unqueued)

  unqueued : (r.threads x).in_ready_queue ≡ false
  unqueued = ground (arith, u.queued x, waiter_unqueued)

  pub revive-Wake : Wake c x (view s) (view (revive policy x r))
  unfolding revive thread_scheduler_enqueue
  revive-Wake = record {
    waiter = u.waiter;
    current = ground (arith, u.current, u.queued x, waiter_unqueued);
    ready_distinct =
        Distinct-revive policy x r unqueued
          (rw u.ready_queue (ground (arith, i.ready_queued x, waiter_unqueued)))
          (subst (λ q. Distinct q) (sym u.ready_queue) i.ready_distinct);
    members = λ t. ground (arith, elem-revive policy x r unqueued t, u.ready_queue);
    queued = λ t. ground (arith, u.queued t, u.queued x, waiter_unqueued);
    state = λ t. ground (arith, u.state t, u.queued x, waiter_unqueued);
    channel = λ t. ground (arith, u.context t, u.queued x, waiter_unqueued);
    waits = λ d t. rw (waits-revive d) (u.waits d t);
    waits_distinct = λ d. rw (waits-revive d) (u.waits_distinct d);
  }
