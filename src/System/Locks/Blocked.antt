-- ===== src/System/Locks/Blocked.antt =====
-- What leaves every mutex and every semaphore as it is: signals and condition variables.
use user_level_thread_librar.Base.{
  ℕ, refl, inl, inr, Option, none, some, List, [], ◌∷◌, ℤ, pos, negsuc, ◌==◌, Bool-cases,
  List-cases, is_empty,
}
use user_level_thread_librar.Machine.{Context, Policy, Machine, after}
use user_level_thread_librar.Scheduler.{revive, taken}
use user_level_thread_librar.Scheduler.Queue.{pick_next-cons, pick_next-nil}
use user_level_thread_librar.Signal.{
  deliver, mark_pending, awaits, end_wait, is_signal, thread_signal_send, take_signal, available,
  begin_wait, abandon_wait, sigwait_block, sigwait_round, thread_sigwait,
}
use user_level_thread_librar.Cond.{
  wake_all, wake_first, thread_cond_broadcast, thread_cond_signal, thread_cond_destroy, set_cond,
}
use user_level_thread_librar.System.Locks.Kept.{
  KeepsLocks, KeepsLocks-refl, KeepsLocks-trans, set_thread-KeepsLocks, revive-KeepsLocks,
  swap_thread-KeepsLocks, taken-KeepsLocks,
}

-- Signals.
deliver-KeepsLocks :
    (p : Policy) (target bit : ℕ) (s : Machine) → KeepsLocks s (deliver p target bit s)
unfolding deliver
deliver-KeepsLocks p target bit s =
    let a = mark_pending target bit s in
    let k = set_thread-KeepsLocks target _ s in
    elim (Bool-cases (awaits bit (a.threads target))) [
      | inl y ↦
          rw (y, deliver)
            (KeepsLocks-trans k (
              KeepsLocks-trans (set_thread-KeepsLocks target _ a)
                (revive-KeepsLocks p target (end_wait target a))))
      | inr n ↦ rw (n, deliver) k
    ]

pub thread_signal_send-KeepsLocks :
    (p : Policy) (t : Option ℕ) (sig : ℤ) (s : Machine)
    → KeepsLocks s (after (thread_signal_send p t sig s))
unfolding thread_signal_send
thread_signal_send-KeepsLocks p none sig s = record { mutexes = refl; sems = refl }
thread_signal_send-KeepsLocks p (some t) sig s = elim (Bool-cases (is_signal sig)) [
  | inl y ↦ rw (y, thread_signal_send) (deliver-KeepsLocks p t _ s)
  | inr n ↦ rw (n, thread_signal_send) (record { mutexes = refl; sems = refl })
]

take_signal-KeepsLocks :
    (n : ℤ) (sig : ℕ) (s : Machine) → KeepsLocks s (after (take_signal n sig s))
take_signal-KeepsLocks (negsuc n) sig s = record { mutexes = refl; sems = refl }
take_signal-KeepsLocks (pos n) sig s = record { mutexes = refl; sems = refl }

sigwait_block-KeepsLocks :
    (set sig : ℕ) (s : Machine) → KeepsLocks s (after (sigwait_block set sig s))
unfolding sigwait_block begin_wait abandon_wait
sigwait_block-KeepsLocks set sig s =
    let b = begin_wait s.current_thread set s in
    elim (List-cases b.ready_queue) [
      | inl e ↦ rw (pick_next-nil b e, sigwait_block) (record { mutexes = refl; sems = refl })
      | inr (next, q, e) ↦
          rw (pick_next-cons next q b e, sigwait_block)
            (KeepsLocks-trans (set_thread-KeepsLocks s.current_thread _ s) (
              KeepsLocks-trans (taken-KeepsLocks next q b) (
                swap_thread-KeepsLocks s.current_thread next (Context.in_sigwait set sig)
                  (taken next q b))))
    ]

pub sigwait_round-KeepsLocks :
    (set sig : ℕ) (s : Machine) → KeepsLocks s (after (sigwait_round set sig s))
unfolding sigwait_round
sigwait_round-KeepsLocks set sig s =
    elim (Bool-cases (available set (s.threads s.current_thread) == 0)) [
      | inl y ↦ rw (y, sigwait_round) (sigwait_block-KeepsLocks set sig s)
      | inr n ↦ rw (n, sigwait_round) (take_signal-KeepsLocks _ sig s)
    ]

pub thread_sigwait-KeepsLocks :
    (set : ℕ) (sig : Option ℕ) (s : Machine) → KeepsLocks s (after (thread_sigwait set sig s))
unfolding thread_sigwait
thread_sigwait-KeepsLocks set none s = record { mutexes = refl; sems = refl }
thread_sigwait-KeepsLocks set (some sig) s = elim (Bool-cases (set == 0)) [
  | inl y ↦ rw (y, thread_sigwait) (record { mutexes = refl; sems = refl })
  | inr n ↦ rw (n, thread_sigwait) (sigwait_round-KeepsLocks set sig s)
]

-- Condition variables.
wake_all-KeepsLocks :
    (p : Policy) (c : ℕ) (q : List ℕ) (s : Machine) → KeepsLocks s (wake_all p c q s)
unfolding wake_all
wake_all-KeepsLocks p c [] s = KeepsLocks-refl s
wake_all-KeepsLocks p c (t ∷ q) s =
    let a = set_cond c (record { waiting_queue = q }) s in
    let k = KeepsLocks-trans (revive-KeepsLocks p t a) (wake_all-KeepsLocks p c q (revive p t a)) in
    record { mutexes = k.mutexes; sems = k.sems }

wake_first-KeepsLocks :
    (p : Policy) (c : ℕ) (q : List ℕ) (s : Machine) → KeepsLocks s (wake_first p c q s)
wake_first-KeepsLocks p c [] s = KeepsLocks-refl s
wake_first-KeepsLocks p c (t ∷ q) s =
    let k = revive-KeepsLocks p t (set_cond c (record { waiting_queue = q }) s) in
    record { mutexes = k.mutexes; sems = k.sems }

pub thread_cond_broadcast-KeepsLocks :
    (p : Policy) (c : Option ℕ) (s : Machine) → KeepsLocks s (after (thread_cond_broadcast p c s))
unfolding thread_cond_broadcast
thread_cond_broadcast-KeepsLocks p none s = KeepsLocks-refl s
thread_cond_broadcast-KeepsLocks p (some c) s = wake_all-KeepsLocks p c _ s

pub thread_cond_signal-KeepsLocks :
    (p : Policy) (c : Option ℕ) (s : Machine) → KeepsLocks s (after (thread_cond_signal p c s))
unfolding thread_cond_signal
thread_cond_signal-KeepsLocks p none s = KeepsLocks-refl s
thread_cond_signal-KeepsLocks p (some c) s = wake_first-KeepsLocks p c _ s

pub thread_cond_destroy-KeepsLocks :
    (c : Option ℕ) (s : Machine) → KeepsLocks s (after (thread_cond_destroy c s))
unfolding thread_cond_destroy
thread_cond_destroy-KeepsLocks none s = KeepsLocks-refl s
thread_cond_destroy-KeepsLocks (some c) s = elim (Bool-cases (is_empty (s.conds c).waiting_queue)) [
  | inl y ↦ rw (y, thread_cond_destroy) (KeepsLocks-refl s)
  | inr n ↦ rw (n, thread_cond_destroy) (KeepsLocks-refl s)
]
