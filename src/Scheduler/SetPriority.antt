-- ===== src/Scheduler/SetPriority.antt =====
-- src/scheduler.c: `thread_set_priority` as moves of the abstract scheduler.
use user_level_thread_librar.Base.{
  ℕ, ◌≡◌, refl, Option, none, some, true, false, not, ◌&&◌, ◌==◌, inl, inr, arith, elem, remove,
  elem-remove, Distinct-remove, Bool-cases, ℤ,
}
use user_level_thread_librar.Machine.{
  Policy, fifo, prio, Machine, ready, after, set_thread, is_ready,
}
use user_level_thread_librar.Scheduler.{
  thread_scheduler_enqueue, set_priority, reposition, yield_if_outranked, outranks_current, rank,
  thread_set_priority, clamp_priority,
}
use user_level_thread_librar.Scheduler.Queue.{elem-enqueue, Distinct-enqueue}
use user_level_thread_librar.Scheduler.Directed.{thread_yield_to-Moves}
use user_level_thread_librar.Scheduler.Ageing.{reprioritised}
use user_level_thread_librar.Abstract.{Channel, Stay, Moves, done, more, stays}
use user_level_thread_librar.Abstract.Preservation.{Moves-trans, Moves-Inv}
use user_level_thread_librar.Refinement.{view, waits_in, IsSound}
use user_level_thread_librar.Refinement.Unseen.{Unseen-Moves}

module _ (policy : Policy) (th : ℕ) (s : Machine) (i : IsSound s)
    (is_queued : (s.threads th).state ≡ ready) where
  abbrev out : Machine
  out =
      set_thread th (record (s.threads th) { in_ready_queue = false })
        (record s { ready_queue = remove th s.ready_queue })

  abbrev moved : Machine
  moved = thread_scheduler_enqueue policy th out

  th_queued : (s.threads th).in_ready_queue ≡ true
  th_queued = ground (arith, i.queued_ready th, is_queued)

  out_unqueued : (out.threads th).in_ready_queue ≡ false
  out_unqueued = ground arith

  elem-out : (t : ℕ) → elem t out.ready_queue ≡ (elem t s.ready_queue && not (t == th))
  elem-out t = elem-remove t th s.ready_queue i.ready_distinct

  elem-moved : (t : ℕ) → elem t moved.ready_queue ≡ elem t s.ready_queue
  elem-moved t =
      ground
        (arith, elem-enqueue policy th out out_unqueued t, elem-out t, i.ready_queued th, th_queued)

  waits-moved : (d : Channel) → waits_in moved d ≡ waits_in s d
  unfolding thread_scheduler_enqueue
  waits-moved (Channel.on_join t) = ground arith
  waits-moved (Channel.on_signal t) = ground arith
  waits-moved d = ground arith

  pub reposition-Stay : Stay (view s) (view (reposition policy th s))
  unfolding reposition thread_scheduler_enqueue
  reposition-Stay = record {
    current = ground arith;
    ready_distinct =
        Distinct-enqueue policy th out out_unqueued (ground (arith, elem-out th))
          (Distinct-remove th s.ready_queue i.ready_distinct);
    members = elem-moved;
    queued = λ t. ground (arith, th_queued);
    state = λ t. ground arith;
    channel = λ t b. ground arith;
    waits = λ d t. rw (waits-moved d);
    waits_distinct = λ d. rw (waits-moved d) (i.waits_distinct d);
  }

yield_if_outranked-Moves :
    (th : ℕ) (s : Machine) → IsSound s → Moves (view s) (view (after (yield_if_outranked th s)))
unfolding yield_if_outranked
yield_if_outranked-Moves th s i = elim (Bool-cases (outranks_current th s)) [
  | inl o ↦ rw (o, yield_if_outranked) (thread_yield_to-Moves prio (some th) s i)
  | inr k ↦ rw (k, yield_if_outranked) done
]

rank-Moves :
    (policy : Policy) (th : ℕ) (s : Machine)
    → IsSound s
    → Moves (view s) (view (after (rank policy th s)))
unfolding rank
rank-Moves fifo th s i = done
rank-Moves prio th s i = elim (Bool-cases (is_ready (s.threads th).state)) [
  | inl r ↦
      let placed = more done (stays (reposition-Stay prio th s i (ground arith))) in
      rw (r, rank) (Moves-trans placed (yield_if_outranked-Moves th _ (Moves-Inv placed i)))
  | inr n ↦ rw (n, rank) done
]

pub thread_set_priority-Moves :
    (policy : Policy) (th : Option ℕ) (p : ℤ) (s : Machine)
    → IsSound s
    → Moves (view s) (view (after (thread_set_priority policy th p s)))
unfolding thread_set_priority
thread_set_priority-Moves policy none p s i = done
thread_set_priority-Moves policy (some th) p s i =
    let changed : Machine = set_thread th (set_priority (clamp_priority p) (s.threads th)) s in
    let set =
      Unseen-Moves i (reprioritised s changed refl refl refl refl refl (λ t. ground arith)) in
    Moves-trans set (rank-Moves policy th changed (Moves-Inv set i))
