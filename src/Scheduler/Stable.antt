-- ===== src/Scheduler/Stable.antt =====
-- src/scheduler.c under THREAD_SCHED_PRIO: the place that `thread_scheduler_enqueue` finds.
use user_level_thread_librar.Base.{
  ℕ, ◌≡◌, refl, ◌∙◌, true, false, List, [], ◌∷◌, ◌++◌, ℤ, leb_ℤ, if◌then◌else◌, arith, inl, inr,
  Bool-cases,
}
use user_level_thread_librar.Machine.{prio, Thread, Machine}
use user_level_thread_librar.Scheduler.{insert_by_priority, place, thread_scheduler_enqueue}
use user_level_thread_librar.Scheduler.Queue.{ready_queue-enqueue}
use user_level_thread_librar.Scheduler.Order.{at_most, descending, priority}
use user_level_thread_librar.Scheduler.Priority.{IsOrdered}

-- The threads of the queue that have at least the priority, and those that have less, in order.
abbrev pub not_below : (ℕ → ℤ) → ℤ → List ℕ → List ℕ
not_below pr p [] = []
not_below pr p (t ∷ q) = let rest = not_below pr p q in if leb_ℤ p (pr t) then t ∷ rest else rest

abbrev pub below : (ℕ → ℤ) → ℤ → List ℕ → List ℕ
below pr p [] = []
below pr p (t ∷ q) = let rest = below pr p q in if leb_ℤ p (pr t) then rest else t ∷ rest

-- A queue of threads of lower priority.
not_below-all :
    (pr : ℕ → ℤ) (b p : ℤ) (q : List ℕ)
    → at_most pr b q ≡ true
    → leb_ℤ p b ≡ false
    → (not_below pr p q ≡ []) × (below pr p q ≡ q)
not_below-all pr b p [] h l = (refl, refl)
not_below-all pr b p (t ∷ q) h l =
    let ih = not_below-all pr b p q (ground (arith, h)) l in
    let lower : leb_ℤ p (pr t) ≡ false = ground (arith, h, l) in
    (ground (arith, ih.0, lower), ground (arith, ih.1, lower))

insert-stable :
    (th : ℕ → Thread) (t : ℕ) (q : List ℕ)
    → descending (priority th) q ≡ true
    → insert_by_priority th t q
      ≡ not_below (priority th) (th t).priority q ++ t ∷ below (priority th) (th t).priority q
unfolding insert_by_priority
insert-stable th t [] d = refl
insert-stable th t (c ∷ q) d = elim (Bool-cases (leb_ℤ (th t).priority (th c).priority)) [
  | inl y ↦ ground (arith, y, insert-stable th t q (ground (arith, d)))
  | inr n ↦
      let all =
        not_below-all (priority th) (th c).priority (th t).priority q (ground (arith, d)) n in
      ground (arith, n, all.0, all.1)
]

-- Under PRIO, with a queue in the order of descending priority, `thread_scheduler_enqueue` puts a
-- thread that is not queued behind all threads of at least its priority and before all others, and
-- the threads of both parts keep their order.
pub thread_scheduler_enqueue-stable :
    (t : ℕ) (s : Machine)
    → IsOrdered s
    → (s.threads t).in_ready_queue ≡ false
    → (thread_scheduler_enqueue prio t s).ready_queue
      ≡ not_below (priority s.threads) (s.threads t).priority s.ready_queue
        ++ t ∷ below (priority s.threads) (s.threads t).priority s.ready_queue
unfolding place
thread_scheduler_enqueue-stable t s o n =
    ready_queue-enqueue prio t s n ∙ insert-stable s.threads t s.ready_queue o
