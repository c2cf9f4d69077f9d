-- ===== src/Scheduler/Reordered.antt =====
-- src/scheduler.c under THREAD_SCHED_PRIO: wake-ups, directed yields and changes of priority, and the
-- order of the ready queue.
use user_level_thread_librar.Base.{
  ℕ, ◌≡◌, refl, ap, ◌∙◌, Option, none, some, true, false, List, [], ◌∷◌, ℤ, arith, remove,
  elem-remove, inl, inr, Bool-cases,
}
use user_level_thread_librar.Machine.{prio, Machine, Context, State, after, set_thread, is_ready}
use user_level_thread_librar.Scheduler.{
  place, thread_scheduler_enqueue, revive, switch_to, thread_yield_to, reposition, outranks_current,
  yield_if_outranked, rank, set_priority, clamp_priority, thread_set_priority,
}
use user_level_thread_librar.Scheduler.Queue.{ready_queue-enqueue}
use user_level_thread_librar.Scheduler.Order.{
  at_most, descending, descending-agree, priority, descending-insert,
}
use user_level_thread_librar.Scheduler.Ageing.{reprioritised}
use user_level_thread_librar.Scheduler.Priority.{IsOrdered, thread_yield-IsOrdered}
use user_level_thread_librar.Scheduler.Same.{flagged-IsOrdered, swap-IsOrdered}
use user_level_thread_librar.Scheduler.SetPriority.{reposition-Stay}
use user_level_thread_librar.Abstract.{Moves, done, more, stays}
use user_level_thread_librar.Abstract.Preservation.{Moves-Inv}
use user_level_thread_librar.Refinement.{view, IsSound}
use user_level_thread_librar.Refinement.Unseen.{Unseen-Moves}

at_most-remove :
    (pr : ℕ → ℤ) (b : ℤ) (x : ℕ) (q : List ℕ)
    → at_most pr b q ≡ true
    → at_most pr b (remove x q) ≡ true
unfolding remove
at_most-remove pr b x [] h = refl
at_most-remove pr b x (t ∷ q) h = ground (arith, h, at_most-remove pr b x q (ground (arith, h)))

descending-remove :
    (pr : ℕ → ℤ) (x : ℕ) (q : List ℕ) → descending pr q ≡ true → descending pr (remove x q) ≡ true
unfolding remove
descending-remove pr x [] d = refl
descending-remove pr x (t ∷ q) d = ground (
  arith,
  d,
  at_most-remove pr (pr t) x q (ground (arith, d)),
  descending-remove pr x q (ground (arith, d)),
)

-- An insertion into the ready queue.
pub enqueue-IsOrdered :
    (t : ℕ) (s : Machine) → IsOrdered s → IsOrdered (thread_scheduler_enqueue prio t s)
unfolding thread_scheduler_enqueue place
enqueue-IsOrdered t s o = elim (Bool-cases (s.threads t).in_ready_queue) [
  | inl y ↦ rw (y, thread_scheduler_enqueue) o
  | inr n ↦
      let e = thread_scheduler_enqueue prio t s in
      descending-agree (priority e.threads) (priority s.threads) e.ready_queue (λ x m. ground arith)
      ∙ ap (λ q. descending (priority s.threads) q) (ready_queue-enqueue prio t s n)
      ∙ descending-insert s.threads t s.ready_queue o
]

-- A wake-up.
pub revive-IsOrdered : (t : ℕ) (s : Machine) → IsOrdered s → IsOrdered (revive prio t s)
unfolding revive
revive-IsOrdered t s o =
    let th = record (s.threads t) { state = State.ready } in
    enqueue-IsOrdered t (set_thread t th s) (flagged-IsOrdered t th s refl o)

-- A thread that leaves the queue, wherever it stands.
dropped-IsOrdered :
    (t : ℕ) (s : Machine)
    → IsOrdered s
    → IsOrdered (
        set_thread t
          (record (s.threads t) { in_ready_queue = false })
          (record s { ready_queue = remove t s.ready_queue }))
dropped-IsOrdered t s o =
    flagged-IsOrdered t (record (s.threads t) { in_ready_queue = false })
      (record s { ready_queue = remove t s.ready_queue }) refl
      (descending-remove (priority s.threads) t s.ready_queue o)

switch_to-IsOrdered : (t : ℕ) (s : Machine) → IsOrdered s → IsOrdered (switch_to prio t s)
unfolding switch_to
switch_to-IsOrdered t s o =
    let prev = s.current_thread in
    let th = record (s.threads prev) { state = State.ready } in
    let b = thread_scheduler_enqueue prio prev (set_thread prev th s) in
    swap-IsOrdered prev t Context.in_yield _ (
      dropped-IsOrdered t b
        (enqueue-IsOrdered prev (set_thread prev th s) (flagged-IsOrdered prev th s refl o)))

pub thread_yield_to-IsOrdered :
    (t : Option ℕ) (s : Machine)
    → IsSound s
    → IsOrdered s
    → IsOrdered (after (thread_yield_to prio t s))
unfolding thread_yield_to
thread_yield_to-IsOrdered none s i o = o
thread_yield_to-IsOrdered (some t) s i o = elim (Bool-cases (is_ready (s.threads t).state)) [
  | inl y ↦ rw (y, thread_yield_to) (switch_to-IsOrdered t s o)
  | inr n ↦ rw (n, thread_yield_to) (thread_yield-IsOrdered s i o)
]

module _ (t : ℕ) (p : ℤ) (s : Machine) (i : IsSound s) (o : IsOrdered s) where
  abbrev changed : Machine
  changed = set_thread t (set_priority p (s.threads t)) s

  changed-IsSound : IsSound changed
  changed-IsSound =
      Moves-Inv
        (Unseen-Moves i (reprioritised s changed refl refl refl refl refl (λ x. ground arith))) i

  -- The queue without the thread is in order, whatever the new priority.
  others_in_order : descending (priority changed.threads) (remove t s.ready_queue) ≡ true
  others_in_order =
      descending-agree (priority changed.threads) (priority s.threads) (remove t s.ready_queue)
        (λ x e. ground (arith, e, elem-remove x t s.ready_queue i.ready_distinct))
      ∙ descending-remove (priority s.threads) t s.ready_queue o

  out-IsOrdered : IsOrdered (
      set_thread t
        (record (changed.threads t) { in_ready_queue = false })
        (record changed { ready_queue = remove t s.ready_queue }))
  out-IsOrdered =
      flagged-IsOrdered t (record (changed.threads t) { in_ready_queue = false })
        (record changed { ready_queue = remove t s.ready_queue }) refl others_in_order

  repositioned : IsOrdered (reposition prio t changed)
  unfolding reposition
  repositioned = enqueue-IsOrdered t _ out-IsOrdered

  unqueued-IsOrdered : is_ready (s.threads t).state ≡ false → IsOrdered changed
  unqueued-IsOrdered n =
      descending-agree (priority changed.threads) (priority s.threads) s.ready_queue
        (λ x e. ground (arith, e, n, i.ready_queued x, i.queued_ready x))
      ∙ o

  outranked-IsOrdered :
      (u : Machine) → IsSound u → IsOrdered u → IsOrdered (after (yield_if_outranked t u))
  unfolding yield_if_outranked
  outranked-IsOrdered u j k = elim (Bool-cases (outranks_current t u)) [
    | inl y ↦ rw (y, yield_if_outranked) (thread_yield_to-IsOrdered (some t) u j k)
    | inr n ↦ rw (n, yield_if_outranked) k
  ]

  rank-IsOrdered : IsOrdered (after (rank prio t changed))
  unfolding rank
  rank-IsOrdered = elim (Bool-cases (is_ready (changed.threads t).state)) [
    | inl y ↦
        let placed : Moves (view changed) (view (reposition prio t changed)) =
          more done (stays (reposition-Stay prio t changed changed-IsSound (ground (arith, y)))) in
        rw (y, rank)
          (outranked-IsOrdered (reposition prio t changed) (Moves-Inv placed changed-IsSound)
            repositioned)
    | inr n ↦ rw (n, rank) (unqueued-IsOrdered (ground (arith, n)))
  ]

-- Under PRIO a wake-up, a directed yield and a change of priority, of any thread to any value, keep
-- the ready queue of a sound state in the order of descending priority.
pub scheduler_calls-IsOrdered :
    (t : ℕ) (p : ℤ) (s : Machine)
    → IsSound s
    → IsOrdered s
    → IsOrdered (revive prio t s)
      × IsOrdered (after (thread_yield_to prio (some t) s))
      × IsOrdered (after (thread_set_priority prio (some t) p s))
unfolding thread_set_priority
scheduler_calls-IsOrdered t p s i o = (
  revive-IsOrdered t s o,
  thread_yield_to-IsOrdered (some t) s i o,
  rank-IsOrdered t (clamp_priority p) s i o,
)
