-- ===== src/System/Locks/Kept.antt =====
-- What leaves every mutex and every semaphore as it is: switches, wake-ups, yields and priorities.
use user_level_thread_librar.Base.{
  ℕ, ◌≡◌, refl, ◌∙◌, inl, inr, Option, none, some, List, ℤ, pos, ◌==◌, if◌then◌else◌, arith,
  Bool-cases, List-cases,
}
use user_level_thread_librar.Machine.{
  Context, Policy, fifo, prio, Machine, Thread, returned, switched, after, swap_thread, State,
  set_thread, is_ready, is_running,
}
use user_level_thread_librar.Refinement.Unseen.{Unseen}
use user_level_thread_librar.Scheduler.{
  thread_scheduler_enqueue, revive, taken, keeps_running, requeue, yield_next, yield_then, age,
  switch_to, thread_yield_to, outranks_current, reposition, yield_if_outranked, set_priority,
  clamp_priority, rank, thread_set_priority,
}
use user_level_thread_librar.Scheduler.Queue.{pick_next-cons}
use user_level_thread_librar.Scheduler.Ageing.{age-Unseen}
use user_level_thread_librar.Scheduler.Refinement.{yield_next-nil}

pub record KeepsLocks (s r : Machine) : Type 0 where
  pub mutexes : r.mutexes ≡ s.mutexes
  pub sems : r.sems ≡ s.sems

pub KeepsLocks-refl : (s : Machine) → KeepsLocks s s
KeepsLocks-refl s = record { mutexes = refl; sems = refl }

pub KeepsLocks-trans : {s r u : Machine} → KeepsLocks s r → KeepsLocks r u → KeepsLocks s u
KeepsLocks-trans a b = record { mutexes = b.mutexes ∙ a.mutexes; sems = b.sems ∙ a.sems }

pub Unseen-KeepsLocks : {s r : Machine} → Unseen s r → KeepsLocks s r
Unseen-KeepsLocks u = record { mutexes = u.mutexes; sems = u.sems }

pub set_thread-KeepsLocks : (t : ℕ) (th : Thread) (s : Machine) → KeepsLocks s (set_thread t th s)
set_thread-KeepsLocks t th s = record { mutexes = refl; sems = refl }

pub enqueue-KeepsLocks :
    (p : Policy) (t : ℕ) (s : Machine) → KeepsLocks s (thread_scheduler_enqueue p t s)
unfolding thread_scheduler_enqueue
enqueue-KeepsLocks p t s = record { mutexes = ground arith; sems = ground arith }

pub revive-KeepsLocks : (p : Policy) (t : ℕ) (s : Machine) → KeepsLocks s (revive p t s)
unfolding revive
revive-KeepsLocks p t s =
    let th = record (s.threads t) { state = State.ready } in
    KeepsLocks-trans (set_thread-KeepsLocks t th s) (enqueue-KeepsLocks p t (set_thread t th s))

pub swap_thread-KeepsLocks :
    (prev next : ℕ) (ctx : Context) (s : Machine) → KeepsLocks s (swap_thread prev next ctx s)
unfolding swap_thread
swap_thread-KeepsLocks prev next ctx s = record { mutexes = refl; sems = refl }

pub taken-KeepsLocks : (next : ℕ) (q : List ℕ) (s : Machine) → KeepsLocks s (taken next q s)
unfolding taken
taken-KeepsLocks next q s = record { mutexes = refl; sems = refl }

requeue-KeepsLocks : (p : Policy) (prev : ℕ) (s : Machine) → KeepsLocks s (requeue p prev s)
unfolding requeue
requeue-KeepsLocks p prev s =
    let th = record (s.threads prev) { state = State.ready } in
    elim (Bool-cases (is_running (s.threads prev).state)) [
      | inl y ↦
          rw (y, requeue)
            (KeepsLocks-trans (set_thread-KeepsLocks prev th s)
              (enqueue-KeepsLocks p prev (set_thread prev th s)))
      | inr n ↦ rw (n, requeue) (KeepsLocks-refl s)
    ]

yield_next-KeepsLocks :
    (p : Policy) (ctx : Context) (s : Machine) → KeepsLocks s (after (yield_next p ctx s))
unfolding yield_next taken
yield_next-KeepsLocks p ctx s = elim (List-cases s.ready_queue) [
  | inl e ↦ rw (yield_next-nil p ctx s e) (KeepsLocks-refl s)
  | inr (next, q, e) ↦ rw (pick_next-cons next q s e, yield_next) (picked next q)
]
  where
    picked :
        (next : ℕ) (q : List ℕ)
        → let r = taken next q s in
          KeepsLocks s (
            after (
              if next == r.current_thread
              then returned (pos 0) r
              else if keeps_running p (r.threads next) (r.threads r.current_thread)
              then returned (pos 0) (thread_scheduler_enqueue p next r)
              else switched (swap_thread r.current_thread next ctx (requeue p r.current_thread r))))
    picked next q =
        let r = taken next q s in
        let k = taken-KeepsLocks next q s in
        elim (Bool-cases (next == s.current_thread)) [
          | inl y ↦ rw y k
          | inr n ↦
              elim (Bool-cases (keeps_running p (r.threads next) (r.threads s.current_thread))) [
                | inl y ↦ rw (n, y) (KeepsLocks-trans k (enqueue-KeepsLocks p next r))
                | inr m ↦
                    rw (n, m)
                      (KeepsLocks-trans k (
                        KeepsLocks-trans (requeue-KeepsLocks p s.current_thread r) (
                          swap_thread-KeepsLocks s.current_thread next ctx
                            (requeue p s.current_thread r))))
              ]
        ]

pub yield_then-KeepsLocks :
    (p : Policy) (ctx : Context) (s : Machine) → KeepsLocks s (after (yield_then p ctx s))
unfolding yield_then
yield_then-KeepsLocks p ctx s =
    KeepsLocks-trans (Unseen-KeepsLocks (age-Unseen p s)) (yield_next-KeepsLocks p ctx (age p s))

switch_to-KeepsLocks : (p : Policy) (t : ℕ) (s : Machine) → KeepsLocks s (switch_to p t s)
unfolding switch_to thread_scheduler_enqueue swap_thread
switch_to-KeepsLocks p t s = record { mutexes = ground arith; sems = ground arith }

pub thread_yield_to-KeepsLocks :
    (p : Policy) (t : Option ℕ) (s : Machine) → KeepsLocks s (after (thread_yield_to p t s))
unfolding thread_yield_to
thread_yield_to-KeepsLocks p none s = record { mutexes = refl; sems = refl }
thread_yield_to-KeepsLocks p (some t) s = elim (Bool-cases (is_ready (s.threads t).state)) [
  | inl y ↦ rw (y, thread_yield_to) (switch_to-KeepsLocks p t s)
  | inr n ↦ rw (n, thread_yield_to) (yield_then-KeepsLocks p Context.in_yield s)
]

reposition-KeepsLocks : (p : Policy) (t : ℕ) (s : Machine) → KeepsLocks s (reposition p t s)
unfolding reposition thread_scheduler_enqueue
reposition-KeepsLocks p t s = record { mutexes = ground arith; sems = ground arith }

outranked-KeepsLocks : (t : ℕ) (s : Machine) → KeepsLocks s (after (yield_if_outranked t s))
unfolding yield_if_outranked
outranked-KeepsLocks t s = elim (Bool-cases (outranks_current t s)) [
  | inl y ↦ rw (y, yield_if_outranked) (thread_yield_to-KeepsLocks prio (some t) s)
  | inr n ↦ rw (n, yield_if_outranked) (KeepsLocks-refl s)
]

rank-KeepsLocks : (p : Policy) (t : ℕ) (s : Machine) → KeepsLocks s (after (rank p t s))
unfolding rank
rank-KeepsLocks fifo t s = KeepsLocks-refl s
rank-KeepsLocks prio t s = elim (Bool-cases (is_ready (s.threads t).state)) [
  | inl y ↦
      rw (y, rank)
        (KeepsLocks-trans (reposition-KeepsLocks prio t s)
          (outranked-KeepsLocks t (reposition prio t s)))
  | inr n ↦ rw (n, rank) (KeepsLocks-refl s)
]

pub thread_set_priority-KeepsLocks :
    (p : Policy) (t : Option ℕ) (n : ℤ) (s : Machine)
    → KeepsLocks s (after (thread_set_priority p t n s))
unfolding thread_set_priority
thread_set_priority-KeepsLocks p none n s = KeepsLocks-refl s
thread_set_priority-KeepsLocks p (some t) n s =
    let th = set_priority (clamp_priority n) (s.threads t) in
    KeepsLocks-trans (set_thread-KeepsLocks t th s) (rank-KeepsLocks p t (set_thread t th s))
