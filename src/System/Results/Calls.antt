-- ===== src/System/Results/Calls.antt =====
-- What the calls of the scheduler, of mutexes, semaphores and condition variables return.
use user_level_thread_librar.Base.{
  ℕ, ◌≡◌, refl, inl, inr, Option, none, some, true, List, ℤ, pos, ltb_ℤ, ◌==◌, if◌then◌else◌,
  is_empty, Bool-cases, List-cases,
}
use user_level_thread_librar.Machine.{
  Policy, fifo, prio, Machine, Caller, Context, returned, switched, is_ready, zero_rc, minus_one,
  swap_thread,
}
use user_level_thread_librar.Scheduler.{
  taken, keeps_running, requeue, thread_scheduler_enqueue, yield_next, yield_then, age,
  thread_yield_to, outranks_current, yield_if_outranked, rank, reposition, thread_set_priority,
}
use user_level_thread_librar.Scheduler.Queue.{pick_next-cons}
use user_level_thread_librar.Scheduler.Refinement.{yield_next-nil}
use user_level_thread_librar.Mutex.{
  thread_mutex_destroy, thread_mutex_lock, thread_mutex_unlock, lock, lock_held, is_destroyed,
  is_free, caller_result,
}
use user_level_thread_librar.Mutex.Refinement.{lock_held_alone, lock_held_parks}
use user_level_thread_librar.Sem.{thread_sem_init, thread_sem_destroy, thread_sem_wait, sem_block}
use user_level_thread_librar.Sem.Refinement.{sem_block_alone, sem_block_parks}
use user_level_thread_librar.Cond.{thread_cond_destroy, thread_cond_wait}
use user_level_thread_librar.Cond.Refinement.{cond_wait_alone, cond_wait_switches}
use user_level_thread_librar.System.Results.{is_code, returns_in}

yield_next-code :
    (p : Policy) (ctx : Context) (s : Machine) → returns_in is_code (yield_next p ctx s) ≡ true
unfolding yield_next taken
yield_next-code p ctx s = elim (List-cases s.ready_queue) [
  | inl e ↦ rw (yield_next-nil p ctx s e) refl
  | inr (next, q, e) ↦ rw (pick_next-cons next q s e, yield_next) (picked next q)
]
  where
    picked :
        (next : ℕ) (q : List ℕ)
        → let r = taken next q s in
          returns_in is_code (
            if next == r.current_thread
            then returned zero_rc r
            else if keeps_running p (r.threads next) (r.threads r.current_thread)
            then returned zero_rc (thread_scheduler_enqueue p next r)
            else switched (swap_thread r.current_thread next ctx (requeue p r.current_thread r)))
          ≡ true
    picked next q =
        let r = taken next q s in
        elim (Bool-cases (next == s.current_thread)) [
          | inl y ↦ rw y refl
          | inr n ↦
              elim (Bool-cases (keeps_running p (r.threads next) (r.threads s.current_thread))) [
                | inl y ↦ rw (n, y) refl
                | inr m ↦ rw (n, m) refl
              ]
        ]

pub yield_then-code :
    (p : Policy) (ctx : Context) (s : Machine) → returns_in is_code (yield_then p ctx s) ≡ true
unfolding yield_then
yield_then-code p ctx s = yield_next-code p ctx (age p s)

pub yield_to-code :
    (p : Policy) (t : Option ℕ) (s : Machine) → returns_in is_code (thread_yield_to p t s) ≡ true
unfolding thread_yield_to
yield_to-code p none s = refl
yield_to-code p (some t) s = elim (Bool-cases (is_ready (s.threads t).state)) [
  | inl y ↦ rw (y, thread_yield_to) refl
  | inr n ↦ rw (n, thread_yield_to) (yield_then-code p Context.in_yield s)
]

outranked-code : (t : ℕ) (s : Machine) → returns_in is_code (yield_if_outranked t s) ≡ true
unfolding yield_if_outranked
outranked-code t s = elim (Bool-cases (outranks_current t s)) [
  | inl y ↦ rw (y, yield_if_outranked) (yield_to-code prio (some t) s)
  | inr n ↦ rw (n, yield_if_outranked) refl
]

rank-code : (p : Policy) (t : ℕ) (s : Machine) → returns_in is_code (rank p t s) ≡ true
unfolding rank
rank-code fifo t s = refl
rank-code prio t s = elim (Bool-cases (is_ready (s.threads t).state)) [
  | inl y ↦ rw (y, rank) (outranked-code t (reposition prio t s))
  | inr n ↦ rw (n, rank) refl
]

pub set_priority-code :
    (p : Policy) (t : Option ℕ) (n : ℤ) (s : Machine)
    → returns_in is_code (thread_set_priority p t n s) ≡ true
unfolding thread_set_priority
set_priority-code p none n s = refl
set_priority-code p (some t) n s = rank-code p t _

-- What `thread_mutex_lock`, or `thread_cond_wait` at its end, returns.
caller-code :
    (caller : Caller) (rc : ℤ) → is_code rc ≡ true → is_code (caller_result caller rc) ≡ true
caller-code Caller.program rc h = h
caller-code Caller.cond_end rc h = refl
caller-code Caller.cond_alone rc h = refl

lock_held-code :
    (caller : Caller) (m : ℕ) (s : Machine) → returns_in is_code (lock_held caller m s) ≡ true
lock_held-code caller m s = elim (List-cases s.ready_queue) [
  | inl e ↦ rw (lock_held_alone caller m s e) (caller-code caller minus_one refl)
  | inr (next, q, e) ↦ rw (lock_held_parks caller m next q s e) refl
]

pub lock-code :
    (caller : Caller) (m : ℕ) (s : Machine) → returns_in is_code (lock caller m s) ≡ true
unfolding lock
lock-code caller m s = elim (Bool-cases (is_destroyed (s.mutexes m))) [
  | inl d ↦ rw (d, lock) (caller-code caller minus_one refl)
  | inr d ↦ elim (Bool-cases (is_free (s.mutexes m))) [
    | inl f ↦ rw (d, f, lock) (caller-code caller zero_rc refl)
    | inr f ↦ rw (d, f, lock) (lock_held-code caller m s)
  ]
]

pub mutex_lock-code :
    (m : Option ℕ) (s : Machine) → returns_in is_code (thread_mutex_lock m s) ≡ true
unfolding thread_mutex_lock
mutex_lock-code none s = refl
mutex_lock-code (some m) s = lock-code Caller.program m s

pub mutex_unlock-code :
    (p : Policy) (m : Option ℕ) (s : Machine)
    → returns_in is_code (thread_mutex_unlock p m s) ≡ true
unfolding thread_mutex_unlock
mutex_unlock-code p none s = refl
mutex_unlock-code p (some m) s = elim (Bool-cases (is_destroyed (s.mutexes m))) [
  | inl d ↦ rw (d, thread_mutex_unlock) refl
  | inr d ↦ elim (Bool-cases (is_free (s.mutexes m))) [
    | inl f ↦ rw (d, f, thread_mutex_unlock) refl
    | inr f ↦ rw (d, f, thread_mutex_unlock) refl
  ]
]

pub mutex_destroy-code :
    (m : Option ℕ) (s : Machine) → returns_in is_code (thread_mutex_destroy m s) ≡ true
unfolding thread_mutex_destroy
mutex_destroy-code none s = refl
mutex_destroy-code (some m) s = elim (Bool-cases (is_empty (s.mutexes m).waiting_queue)) [
  | inl e ↦ rw (e, thread_mutex_destroy) refl
  | inr e ↦ rw (e, thread_mutex_destroy) refl
]

sem_block-code : (m : ℕ) (s : Machine) → returns_in is_code (sem_block m s) ≡ true
sem_block-code m s = elim (List-cases s.ready_queue) [
  | inl e ↦ rw (sem_block_alone m s e) refl
  | inr (next, q, e) ↦ rw (sem_block_parks m next q s e) refl
]

pub sem_wait-code : (m : Option ℕ) (s : Machine) → returns_in is_code (thread_sem_wait m s) ≡ true
unfolding thread_sem_wait
sem_wait-code none s = refl
sem_wait-code (some m) s = elim (Bool-cases (ltb_ℤ (pos 0) (s.sems m).count)) [
  | inl d ↦ rw (d, thread_sem_wait) refl
  | inr d ↦ rw (d, thread_sem_wait) (sem_block-code m s)
]

pub sem_init-code :
    (m : Option ℕ) (v : ℤ) (s : Machine) → returns_in is_code (thread_sem_init m v s) ≡ true
unfolding thread_sem_init
sem_init-code none v s = refl
sem_init-code (some m) v s = elim (Bool-cases (ltb_ℤ v (pos 0))) [
  | inl e ↦ rw (e, thread_sem_init) refl
  | inr e ↦ rw (e, thread_sem_init) refl
]

pub sem_destroy-code :
    (m : Option ℕ) (s : Machine) → returns_in is_code (thread_sem_destroy m s) ≡ true
unfolding thread_sem_destroy
sem_destroy-code none s = refl
sem_destroy-code (some m) s = elim (Bool-cases (is_empty (s.sems m).waiting_queue)) [
  | inl e ↦ rw (e, thread_sem_destroy) refl
  | inr e ↦ rw (e, thread_sem_destroy) refl
]

pub cond_destroy-code :
    (c : Option ℕ) (s : Machine) → returns_in is_code (thread_cond_destroy c s) ≡ true
unfolding thread_cond_destroy
cond_destroy-code none s = refl
cond_destroy-code (some c) s = elim (Bool-cases (is_empty (s.conds c).waiting_queue)) [
  | inl e ↦ rw (e, thread_cond_destroy) refl
  | inr e ↦ rw (e, thread_cond_destroy) refl
]

pub cond_wait-code :
    (p : Policy) (c m : Option ℕ) (s : Machine)
    → returns_in is_code (thread_cond_wait p c m s) ≡ true
unfolding thread_cond_wait
cond_wait-code p none m s = refl
cond_wait-code p (some c) none s = refl
cond_wait-code p (some c) (some m) s = elim (List-cases s.ready_queue) [
  | inl e ↦ rw (cond_wait_alone p c m s e) (lock-code Caller.cond_alone m _)
  | inr (next, q, e) ↦ rw (cond_wait_switches p c m next q s e) refl
]
