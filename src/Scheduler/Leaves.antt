-- ===== src/Scheduler/Leaves.antt =====
-- src/scheduler.c: where `thread_yield` leaves the thread that calls it.
use user_level_thread_librar.Base.{
  ℕ, ◌≡◌, refl, subst, inl, inr, pos, List, ◌==◌, if◌then◌else◌, arith, Bool-cases, List-cases,
}
use user_level_thread_librar.Machine.{
  Context, Policy, Machine, Outcome, returned, switched, swap_thread,
}
use user_level_thread_librar.Scheduler.{
  yield_then, yield_next, thread_scheduler_enqueue, taken, keeps_running, requeue, age,
}
use user_level_thread_librar.Scheduler.Queue.{pick_next-cons}
use user_level_thread_librar.Scheduler.Ageing.{age-Unseen}
use user_level_thread_librar.Scheduler.Refinement.{yield_next-nil}

-- The thread `cur` still runs, or it is left at `ctx`.
abbrev pub LeavesAt : Context → ℕ → Outcome → Type 0
LeavesAt ctx cur (returned rc t) = t.current_thread ≡ cur
LeavesAt ctx cur (switched t) = (t.threads cur).context ≡ ctx
LeavesAt ctx cur _ = ⊥

current-enqueue :
    (policy : Policy) (t : ℕ) (s : Machine)
    → (thread_scheduler_enqueue policy t s).current_thread ≡ s.current_thread
unfolding thread_scheduler_enqueue
current-enqueue policy t s = ground arith

swap-LeavesAt :
    (prev next : ℕ) (ctx : Context) (s : Machine)
    → LeavesAt ctx prev (switched (swap_thread prev next ctx s))
unfolding swap_thread
swap-LeavesAt prev next ctx s = ground arith

yield_next-LeavesAt :
    (policy : Policy) (ctx : Context) (s : Machine)
    → LeavesAt ctx s.current_thread (yield_next policy ctx s)
unfolding yield_next taken
yield_next-LeavesAt policy ctx s = elim (List-cases s.ready_queue) [
  | inl e ↦ rw (yield_next-nil policy ctx s e) refl
  | inr (next, q, e) ↦ rw (pick_next-cons next q s e, yield_next) (picked next q)
]
  where
    picked :
        (next : ℕ) (q : List ℕ)
        → let r = taken next q s in
          LeavesAt ctx s.current_thread (
            if next == r.current_thread
            then returned (pos 0) r
            else if keeps_running policy (r.threads next) (r.threads r.current_thread)
            then returned (pos 0) (thread_scheduler_enqueue policy next r)
            else switched
                (swap_thread r.current_thread next ctx (requeue policy r.current_thread r)))
    picked next q =
        let r = taken next q s in
        elim (Bool-cases (next == s.current_thread)) [
          | inl y ↦ rw y refl
          | inr n ↦
              elim (Bool-cases
                (keeps_running policy (r.threads next) (r.threads s.current_thread))) [
                  | inl y ↦ rw (n, y) (current-enqueue policy next r)
                  | inr m ↦
                      rw (n, m)
                        (swap-LeavesAt s.current_thread next ctx
                          (requeue policy s.current_thread r))
                ]
        ]

pub yield_then-LeavesAt :
    (policy : Policy) (ctx : Context) (s : Machine)
    → LeavesAt ctx s.current_thread (yield_then policy ctx s)
unfolding yield_then
yield_then-LeavesAt policy ctx s =
    subst (λ t. LeavesAt ctx t (yield_next policy ctx (age policy s))) (age-Unseen policy s).current
      (yield_next-LeavesAt policy ctx (age policy s))
