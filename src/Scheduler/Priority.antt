-- ===== src/Scheduler/Priority.antt =====
-- src/scheduler.c under THREAD_SCHED_PRIO: `thread_yield` and the order of the ready queue.
use user_level_thread_librar.Base.{
  ℕ, ◌≡◌, sym, subst, ap, ◌∙◌, true, false, Bool, List, ◌∷◌, leb_ℤ, arith, inl, inr, Bool-cases,
  List-cases,
}
use user_level_thread_librar.Machine.{
  prio, Thread, Machine, Context, in_yield, switched, after, swap_thread,
}
use user_level_thread_librar.Scheduler.{
  insert_by_priority, place, thread_scheduler_enqueue, taken, gain, age_running, age, keeps_running,
  yield_next, yield_then, thread_yield, revive,
}
use user_level_thread_librar.Scheduler.Queue.{ready_queue-revive, ready_queue-enqueue, marked}
use user_level_thread_librar.Scheduler.Order.{
  at_most, descending, at_most-agree, descending-agree, priority, at_most-insert, descending-insert,
  descending-gain, age_waiting-priority,
}
use user_level_thread_librar.Scheduler.Ageing.{age-Unseen}
use user_level_thread_librar.Scheduler.Refinement.{
  resigned, put_back, next_taken, cur_unqueued_taken, yield_next-picked, yield_picked-gone,
  yield_picked-kept, yield_next-nil,
}
use user_level_thread_librar.Abstract.Preservation.{Moves-Inv}
use user_level_thread_librar.Refinement.{IsSound}
use user_level_thread_librar.Refinement.Unseen.{Unseen-Moves}

abbrev pub IsOrdered : Machine → Type 0
IsOrdered s = descending (priority s.threads) s.ready_queue ≡ true

-- The running thread is not in the queue, so that ageing leaves its loss out of the order.
age-IsOrdered : (s : Machine) → IsSound s → IsOrdered s → IsOrdered (age prio s)
unfolding age age_running
age-IsOrdered s i o =
    descending-agree (priority (age prio s).threads) (λ t. gain (priority s.threads t))
      s.ready_queue
      (λ t e. ground (
        arith,
        e,
        age_waiting-priority s.ready_queue s.threads t i.ready_distinct,
        i.ready_queued t,
        i.queued_ready t,
        i.one_running t,
      ))
    ∙ descending-gain (priority s.threads) s.ready_queue o

module _ (ctx : Context) (next : ℕ) (q : List ℕ) (s : Machine) (i : IsSound s)
    (e : s.ready_queue ≡ next ∷ q) (o : IsOrdered s) where
  in_order : descending (priority s.threads) (next ∷ q) ≡ true
  in_order = subst (λ l. descending (priority s.threads) l ≡ true) e o

  rest_in_order : descending (priority (taken next q s).threads) q ≡ true
  unfolding taken
  rest_in_order =
      descending-agree (priority (taken next q s).threads) (priority s.threads) q
        (λ t m. ground arith)
      ∙ ground (arith, in_order)

  abbrev kept : Machine
  kept = put_back prio next q s i e

  kept_queue : kept.ready_queue ≡ insert_by_priority (taken next q s).threads next q
  unfolding place taken
  kept_queue = ready_queue-enqueue prio next (taken next q s) (next_taken prio next q s i e)

  kept_priority : (t : ℕ) → (kept.threads t).priority ≡ ((taken next q s).threads t).priority
  unfolding thread_scheduler_enqueue
  kept_priority t = ground arith

  kept-IsOrdered : IsOrdered kept
  kept-IsOrdered = rw kept_queue (
      descending-agree (priority kept.threads) (priority (taken next q s).threads)
        (insert_by_priority (taken next q s).threads next q) (λ t m. kept_priority t)
      ∙ descending-insert (taken next q s).threads next q rest_in_order)

  -- The state once the running thread has been queued and `next` runs.
  abbrev gone : Machine
  gone = swap_thread s.current_thread next ctx (resigned prio next q s i e)

  abbrev leaving : ℕ → Thread
  leaving = marked prio s.current_thread (taken next q s) (cur_unqueued_taken prio next q s i e)

  gone_queue : gone.ready_queue ≡ insert_by_priority leaving s.current_thread q
  unfolding swap_thread place taken
  gone_queue =
      ready_queue-revive prio s.current_thread (taken next q s)
        (cur_unqueued_taken prio next q s i e)

  gone_priority : (t : ℕ) → (gone.threads t).priority ≡ (leaving t).priority
  unfolding swap_thread revive thread_scheduler_enqueue
  gone_priority t = ground arith

  leaving_priority : (t : ℕ) → (leaving t).priority ≡ (s.threads t).priority
  unfolding taken
  leaving_priority t = ground arith

  leaving_in_order : descending (priority leaving) q ≡ true
  leaving_in_order =
      descending-agree (priority leaving) (priority s.threads) q (λ t m. leaving_priority t)
      ∙ ground (arith, in_order)

  gone-IsOrdered : IsOrdered gone
  gone-IsOrdered = rw gone_queue (
      descending-agree (priority gone.threads) (priority leaving)
        (insert_by_priority leaving s.current_thread q) (λ t m. gone_priority t)
      ∙ descending-insert leaving s.current_thread q leaving_in_order)

  abbrev keeps : Bool
  keeps =
      keeps_running prio ((taken next q s).threads next) ((taken next q s).threads s.current_thread)

  -- The thread that takes over has a higher priority than the one that it replaces.
  overtakes :
      keeps ≡ false → leb_ℤ (s.threads s.current_thread).priority (s.threads next).priority ≡ true
  unfolding taken
  overtakes k = ground (arith, k)

  gone_highest :
      keeps ≡ false
      → at_most (priority gone.threads) (gone.threads next).priority gone.ready_queue ≡ true
  gone_highest k =
      rw (gone_queue, gone_priority next)
        (at_most-agree (priority gone.threads) (priority leaving) (leaving next).priority
            (insert_by_priority leaving s.current_thread q) (λ t m. gone_priority t)
          ∙ at_most-insert leaving (leaving next).priority s.current_thread q
          ∙ rw (leaving_priority next, leaving_priority s.current_thread, overtakes k)
              (at_most-agree (priority leaving) (priority s.threads) (s.threads next).priority q
                  (λ t m. leaving_priority t)
                ∙ ground (arith, in_order)))

yield_next-IsOrdered :
    (ctx : Context) (s : Machine)
    → IsSound s
    → IsOrdered s
    → IsOrdered (after (yield_next prio ctx s))
yield_next-IsOrdered ctx s i o = elim (List-cases s.ready_queue) [
  | inl e ↦ rw (yield_next-nil prio ctx s e) o
  | inr (next, q, e) ↦ elim (Bool-cases (keeps ctx next q s i e o)) [
    | inl k ↦
        rw (yield_next-picked prio next q s i e ctx, yield_picked-kept prio next q s i e ctx k)
          (kept-IsOrdered ctx next q s i e o)
    | inr k ↦
        rw (yield_next-picked prio next q s i e ctx, yield_picked-gone prio next q s i e ctx k)
          (gone-IsOrdered ctx next q s i e o)
  ]
]

-- The highest priority of the ready threads is at most that of the running one.
abbrev pub IsHighest : Machine → Type 0
IsHighest s =
    at_most (priority s.threads) (s.threads s.current_thread).priority s.ready_queue ≡ true

yield_next-IsHighest :
    (ctx : Context) (s t : Machine)
    → IsSound s
    → IsOrdered s
    → yield_next prio ctx s ≡ switched t
    → IsHighest t
unfolding swap_thread
yield_next-IsHighest ctx s t i o h = elim (List-cases s.ready_queue) [
  | inl e ↦ absurd (cc (yield_next-nil prio ctx s e, h))
  | inr (next, q, e) ↦
      let picked = sym (yield_next-picked prio next q s i e ctx) ∙ h in
      elim (Bool-cases (keeps ctx next q s i e o)) [
        | inl k ↦ absurd (cc (yield_picked-kept prio next q s i e ctx k, picked))
        | inr k ↦
            subst (λ u. IsHighest u)
              (ap after (sym (yield_picked-gone prio next q s i e ctx k) ∙ picked))
              (gone_highest ctx next q s i e o k)
      ]
]

aged-IsSound : (s : Machine) → IsSound s → IsSound (age prio s)
aged-IsSound s i = Moves-Inv (Unseen-Moves i (age-Unseen prio s)) i

pub yield_then-IsOrdered :
    (ctx : Context) (s : Machine)
    → IsSound s
    → IsOrdered s
    → IsOrdered (after (yield_then prio ctx s))
unfolding yield_then
yield_then-IsOrdered ctx s i o =
    yield_next-IsOrdered ctx (age prio s) (aged-IsSound s i) (age-IsOrdered s i o)

-- Under PRIO a yield, with its ageing, keeps the ready queue of a sound state in the order of
-- descending priority, whether it switches or not.
pub thread_yield-IsOrdered :
    (s : Machine) → IsSound s → IsOrdered s → IsOrdered (after (thread_yield prio s))
thread_yield-IsOrdered s i o = yield_then-IsOrdered in_yield s i o

-- Under PRIO, if a yield switches in a sound state with an ordered queue, no ready thread has a
-- higher priority than the thread that runs now.
pub thread_yield-IsHighest :
    (s t : Machine) → IsSound s → IsOrdered s → thread_yield prio s ≡ switched t → IsHighest t
unfolding yield_then
thread_yield-IsHighest s t i o h =
    yield_next-IsHighest in_yield (age prio s) t (aged-IsSound s i) (age-IsOrdered s i o) h
