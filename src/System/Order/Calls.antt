-- ===== src/System/Order/Calls.antt =====
-- Every call other than a creation keeps the order of the ready queue.
use user_level_thread_librar.Base.{
  ℕ, refl, inl, inr, Option, none, some, List, [], ◌∷◌, ℤ, pos, ltb_ℤ, arith, is_empty, Bool-cases,
  List-cases,
}
use user_level_thread_librar.Machine.{prio, Machine, Caller, after, swap_thread}
use user_level_thread_librar.Scheduler.{taken, revive}
use user_level_thread_librar.Scheduler.Priority.{IsOrdered}
use user_level_thread_librar.Scheduler.Reordered.{revive-IsOrdered}
use user_level_thread_librar.Scheduler.Same.{SameOrder, SameOrder-IsOrdered, taken-IsOrdered}
use user_level_thread_librar.Mutex.{
  thread_mutex_destroy, thread_mutex_unlock, lock, lock_held, hand_over, park_on_mutex,
  queue_on_mutex, set_mutex, is_destroyed, is_free,
}
use user_level_thread_librar.Mutex.Refinement.{lock_held_alone, lock_held_parks}
use user_level_thread_librar.Sem.{
  thread_sem_init, thread_sem_destroy, thread_sem_wait, thread_sem_post, sem_block, release_unit,
  park_on_sem, queue_on_sem, set_sem,
}
use user_level_thread_librar.Sem.Refinement.{sem_block_alone, sem_block_parks}
use user_level_thread_librar.Cond.{
  cond_wait, park_on_cond, queue_on_cond, set_cond, wake_all, wake_first, thread_cond_destroy,
}
use user_level_thread_librar.Cond.Refinement.{cond_wait_alone, cond_wait_switches}

-- Mutexes.
hand_over-IsOrdered :
    (m : ℕ) (q : List ℕ) (s : Machine) → IsOrdered s → IsOrdered (hand_over prio m q s)
hand_over-IsOrdered m [] s o = o
hand_over-IsOrdered m (t ∷ q) s o =
    revive-IsOrdered t (set_mutex m (record (s.mutexes m) { waiting_queue = q }) s) o

park_on_mutex-SameOrder :
    (caller : Caller) (m prev next : ℕ) (s : Machine)
    → SameOrder s (park_on_mutex caller m prev next s)
unfolding park_on_mutex queue_on_mutex swap_thread
park_on_mutex-SameOrder caller m prev next s = record {
  priorities = λ t. ground arith;
  ready_queue = refl;
}

lock_held-IsOrdered :
    (caller : Caller) (m : ℕ) (s : Machine) → IsOrdered s → IsOrdered (after (lock_held caller m s))
lock_held-IsOrdered caller m s o = elim (List-cases s.ready_queue) [
  | inl e ↦ rw (lock_held_alone caller m s e) o
  | inr (next, q, e) ↦ rw (lock_held_parks caller m next q s e) (
      SameOrder-IsOrdered (park_on_mutex-SameOrder caller m s.current_thread next (taken next q s))
        (taken-IsOrdered next q s e o))
]

pub lock-IsOrdered :
    (caller : Caller) (m : ℕ) (s : Machine) → IsOrdered s → IsOrdered (after (lock caller m s))
unfolding lock
lock-IsOrdered caller m s o = elim (Bool-cases (is_destroyed (s.mutexes m))) [
  | inl d ↦ rw (d, lock) o
  | inr d ↦ elim (Bool-cases (is_free (s.mutexes m))) [
    | inl f ↦ rw (d, f, lock) o
    | inr f ↦ rw (d, f, lock) (lock_held-IsOrdered caller m s o)
  ]
]

pub unlock-IsOrdered :
    (m : ℕ) (s : Machine) → IsOrdered s → IsOrdered (after (thread_mutex_unlock prio (some m) s))
unfolding thread_mutex_unlock
unlock-IsOrdered m s o = elim (Bool-cases (is_destroyed (s.mutexes m))) [
  | inl d ↦ rw (d, thread_mutex_unlock) o
  | inr d ↦ elim (Bool-cases (is_free (s.mutexes m))) [
    | inl f ↦ rw (d, f, thread_mutex_unlock) o
    | inr f ↦ rw (d, f, thread_mutex_unlock) (hand_over-IsOrdered m (s.mutexes m).waiting_queue s o)
  ]
]

pub mutex_destroy-IsOrdered :
    (m : ℕ) (s : Machine) → IsOrdered s → IsOrdered (after (thread_mutex_destroy (some m) s))
unfolding thread_mutex_destroy
mutex_destroy-IsOrdered m s o = elim (Bool-cases (is_empty (s.mutexes m).waiting_queue)) [
  | inl e ↦ rw (e, thread_mutex_destroy) o
  | inr e ↦ rw (e, thread_mutex_destroy) o
]

-- Semaphores.
park_on_sem-SameOrder : (m prev next : ℕ) (s : Machine) → SameOrder s (park_on_sem m prev next s)
unfolding park_on_sem queue_on_sem swap_thread
park_on_sem-SameOrder m prev next s = record { priorities = λ t. ground arith; ready_queue = refl }

sem_block-IsOrdered : (m : ℕ) (s : Machine) → IsOrdered s → IsOrdered (after (sem_block m s))
sem_block-IsOrdered m s o = elim (List-cases s.ready_queue) [
  | inl e ↦ rw (sem_block_alone m s e) o
  | inr (next, q, e) ↦ rw (sem_block_parks m next q s e) (
      SameOrder-IsOrdered (park_on_sem-SameOrder m s.current_thread next (taken next q s))
        (taken-IsOrdered next q s e o))
]

pub sem_wait-IsOrdered :
    (m : ℕ) (s : Machine) → IsOrdered s → IsOrdered (after (thread_sem_wait (some m) s))
unfolding thread_sem_wait
sem_wait-IsOrdered m s o = elim (Bool-cases (ltb_ℤ (pos 0) (s.sems m).count)) [
  | inl d ↦ rw (d, thread_sem_wait) o
  | inr d ↦ rw (d, thread_sem_wait) (sem_block-IsOrdered m s o)
]

release_unit-IsOrdered :
    (m : ℕ) (q : List ℕ) (s : Machine) → IsOrdered s → IsOrdered (release_unit prio m q s)
release_unit-IsOrdered m [] s o = o
release_unit-IsOrdered m (t ∷ q) s o =
    revive-IsOrdered t (set_sem m (record (s.sems m) { waiting_queue = q }) s) o

pub sem_post-IsOrdered :
    (m : ℕ) (s : Machine) → IsOrdered s → IsOrdered (after (thread_sem_post prio (some m) s))
unfolding thread_sem_post
sem_post-IsOrdered m s o = release_unit-IsOrdered m (s.sems m).waiting_queue s o

pub sem_init-IsOrdered :
    (m : ℕ) (v : ℤ) (s : Machine) → IsOrdered s → IsOrdered (after (thread_sem_init (some m) v s))
unfolding thread_sem_init
sem_init-IsOrdered m v s o = elim (Bool-cases (ltb_ℤ v (pos 0))) [
  | inl e ↦ rw (e, thread_sem_init) o
  | inr e ↦ rw (e, thread_sem_init) o
]

pub sem_destroy-IsOrdered :
    (m : ℕ) (s : Machine) → IsOrdered s → IsOrdered (after (thread_sem_destroy (some m) s))
unfolding thread_sem_destroy
sem_destroy-IsOrdered m s o = elim (Bool-cases (is_empty (s.sems m).waiting_queue)) [
  | inl e ↦ rw (e, thread_sem_destroy) o
  | inr e ↦ rw (e, thread_sem_destroy) o
]

-- Condition variables.
park_on_cond-SameOrder :
    (c m prev next : ℕ) (s : Machine) → SameOrder s (park_on_cond c m prev next s)
unfolding park_on_cond queue_on_cond swap_thread
park_on_cond-SameOrder c m prev next s = record {
  priorities = λ t. ground arith;
  ready_queue = refl;
}

pub cond_wait-IsOrdered :
    (c m : ℕ) (s : Machine) → IsOrdered s → IsOrdered (after (cond_wait prio c m s))
cond_wait-IsOrdered c m s o =
    let q = (s.mutexes m).waiting_queue in
    elim (List-cases s.ready_queue) [
      | inl e ↦
          rw (cond_wait_alone prio c m s e) (
            lock-IsOrdered Caller.cond_alone m (hand_over prio m q s) (hand_over-IsOrdered m q s o))
      | inr (next, l, e) ↦ rw (cond_wait_switches prio c m next l s e) (
          SameOrder-IsOrdered
            (park_on_cond-SameOrder c m s.current_thread next (hand_over prio m q (taken next l s)))
            (hand_over-IsOrdered m q (taken next l s) (taken-IsOrdered next l s e o)))
    ]

pub wake_all-IsOrdered :
    (c : ℕ) (q : List ℕ) (s : Machine) → IsOrdered s → IsOrdered (wake_all prio c q s)
unfolding wake_all
wake_all-IsOrdered c [] s o = o
wake_all-IsOrdered c (t ∷ q) s o =
    let a = set_cond c (record { waiting_queue = q }) s in
    wake_all-IsOrdered c q (revive prio t a) (revive-IsOrdered t a o)

pub wake_first-IsOrdered :
    (c : ℕ) (q : List ℕ) (s : Machine) → IsOrdered s → IsOrdered (wake_first prio c q s)
wake_first-IsOrdered c [] s o = o
wake_first-IsOrdered c (t ∷ q) s o =
    revive-IsOrdered t (set_cond c (record { waiting_queue = q }) s) o

pub cond_destroy-IsOrdered :
    (c : Option ℕ) (s : Machine) → IsOrdered s → IsOrdered (after (thread_cond_destroy c s))
unfolding thread_cond_destroy
cond_destroy-IsOrdered none s o = o
cond_destroy-IsOrdered (some c) s o = elim (Bool-cases (is_empty (s.conds c).waiting_queue)) [
  | inl y ↦ rw (y, thread_cond_destroy) o
  | inr n ↦ rw (n, thread_cond_destroy) o
]
