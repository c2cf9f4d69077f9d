-- ===== src/System/Order/Blocked.antt =====
-- Signals and ends of threads keep the order of the ready queue.
use user_level_thread_librar.Base.{
  ℕ, ◌≡◌, refl, inl, inr, Option, none, some, ℤ, pos, negsuc, ◌==◌, Bool-cases, List-cases,
}
use user_level_thread_librar.Machine.{prio, Machine, Context, switched, after}
use user_level_thread_librar.Scheduler.{taken}
use user_level_thread_librar.Scheduler.Queue.{pick_next-cons, pick_next-nil}
use user_level_thread_librar.Scheduler.Priority.{IsOrdered}
use user_level_thread_librar.Scheduler.Reordered.{revive-IsOrdered}
use user_level_thread_librar.Scheduler.Same.{
  SameOrder-IsOrdered, swap-IsOrdered, flagged-IsOrdered, taken-IsOrdered,
}
use user_level_thread_librar.Signal.{
  deliver, mark_pending, awaits, end_wait, is_signal, thread_signal_send, take_signal, available,
  begin_wait, abandon_wait, sigwait_block, sigwait_round, thread_sigwait,
}
use user_level_thread_librar.Lifecycle.Exit.{
  leave, terminate, bury, wake_joiner, restore, thread_exit,
}
use user_level_thread_librar.System.Order.Kept.{buried}

-- Signals.
deliver-IsOrdered :
    (target bit : ℕ) (s : Machine) → IsOrdered s → IsOrdered (deliver prio target bit s)
unfolding deliver
deliver-IsOrdered target bit s o =
    let a = mark_pending target bit s in
    let marked : IsOrdered a = flagged-IsOrdered target _ s refl o in
    elim (Bool-cases (awaits bit (a.threads target))) [
      | inl y ↦
          rw (y, deliver)
            (revive-IsOrdered target (end_wait target a) (flagged-IsOrdered target _ a refl marked))
      | inr n ↦ rw (n, deliver) marked
    ]

pub signal_send-IsOrdered :
    (t : Option ℕ) (sig : ℤ) (s : Machine)
    → IsOrdered s
    → IsOrdered (after (thread_signal_send prio t sig s))
unfolding thread_signal_send
signal_send-IsOrdered none sig s o = o
signal_send-IsOrdered (some t) sig s o = elim (Bool-cases (is_signal sig)) [
  | inl y ↦ rw (y, thread_signal_send) (deliver-IsOrdered t _ s o)
  | inr n ↦ rw (n, thread_signal_send) o
]

take_signal-IsOrdered :
    (n : ℤ) (sig : ℕ) (s : Machine) → IsOrdered s → IsOrdered (after (take_signal n sig s))
take_signal-IsOrdered (negsuc n) sig s o = o
take_signal-IsOrdered (pos n) sig s o = flagged-IsOrdered s.current_thread _ s refl o

sigwait_block-IsOrdered :
    (set sig : ℕ) (s : Machine) → IsOrdered s → IsOrdered (after (sigwait_block set sig s))
unfolding sigwait_block begin_wait abandon_wait
sigwait_block-IsOrdered set sig s o =
    let t = s.current_thread in
    let b = begin_wait t set s in
    let begun : IsOrdered b = flagged-IsOrdered t _ s refl o in
    elim (List-cases b.ready_queue) [
      | inl e ↦ rw (pick_next-nil b e, sigwait_block) (flagged-IsOrdered t _ b refl begun)
      | inr (next, q, e) ↦
          rw (pick_next-cons next q b e, sigwait_block)
            (swap-IsOrdered t next (Context.in_sigwait set sig) (taken next q b)
              (taken-IsOrdered next q b e begun))
    ]

pub sigwait_round-IsOrdered :
    (set sig : ℕ) (s : Machine) → IsOrdered s → IsOrdered (after (sigwait_round set sig s))
unfolding sigwait_round
sigwait_round-IsOrdered set sig s o =
    elim (Bool-cases (available set (s.threads s.current_thread) == 0)) [
      | inl y ↦ rw (y, sigwait_round) (sigwait_block-IsOrdered set sig s o)
      | inr n ↦ rw (n, sigwait_round) (take_signal-IsOrdered _ sig s o)
    ]

pub sigwait-IsOrdered :
    (set : ℕ) (sig : Option ℕ) (s : Machine)
    → IsOrdered s
    → IsOrdered (after (thread_sigwait set sig s))
unfolding thread_sigwait
sigwait-IsOrdered set none s o = o
sigwait-IsOrdered set (some sig) s o = elim (Bool-cases (set == 0)) [
  | inl y ↦ rw (y, thread_sigwait) o
  | inr n ↦ rw (n, thread_sigwait) (sigwait_round-IsOrdered set sig s o)
]

-- Ends of threads.
wake_joiner-IsOrdered :
    (j : Option ℕ) (s : Machine) → IsOrdered s → IsOrdered (wake_joiner prio j s)
wake_joiner-IsOrdered none s o = o
wake_joiner-IsOrdered (some j) s o = revive-IsOrdered j s o

leave-IsOrdered : (v : ℕ) (s : Machine) → IsOrdered s → IsOrdered (leave prio v s)
unfolding leave terminate
leave-IsOrdered v s o =
    let r = bury s.current_thread (terminate v s) in
    wake_joiner-IsOrdered (r.threads s.current_thread).joined_by r (
      SameOrder-IsOrdered (buried s.current_thread (terminate v s))
        (flagged-IsOrdered s.current_thread _ s refl o))

-- Where another thread goes on.
pub exit-IsOrdered :
    (v : ℕ) (s t : Machine)
    → thread_exit prio v s ≡ switched t
    → IsOrdered s
    → IsOrdered (after (thread_exit prio v s))
unfolding thread_exit restore
exit-IsOrdered v s t h o =
    let l = leave prio v s in
    elim (List-cases l.ready_queue) [
      | inl e ↦ absurd (cc (pick_next-nil l e, h))
      | inr (next, q, e) ↦
          let r = taken next q l in
          let k : IsOrdered r = taken-IsOrdered next q l e (leave-IsOrdered v s o) in
          rw (pick_next-cons next q l e, thread_exit) (flagged-IsOrdered next _ r refl k)
    ]
