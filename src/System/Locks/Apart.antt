-- ===== src/System/Locks/Apart.antt =====
-- The calls of mutexes leave the semaphores, and those of semaphores leave the mutexes.
use user_level_thread_librar.Base.{
  ℕ, ◌≡◌, refl, inl, inr, ◌∙◌, some, List, [], ◌∷◌, ℤ, pos, ltb_ℤ, is_empty, Bool-cases, List-cases,
}
use user_level_thread_librar.Machine.{Policy, Machine, Caller, after, swap_thread}
use user_level_thread_librar.Scheduler.{taken}
use user_level_thread_librar.Mutex.{
  thread_mutex_destroy, thread_mutex_unlock, lock, lock_held, hand_over, park_on_mutex,
  queue_on_mutex, is_destroyed, is_free,
}
use user_level_thread_librar.Mutex.Refinement.{lock_held_alone, lock_held_parks}
use user_level_thread_librar.Sem.{
  thread_sem_init, thread_sem_destroy, thread_sem_wait, thread_sem_post, sem_block, release_unit,
  park_on_sem, queue_on_sem,
}
use user_level_thread_librar.Sem.Refinement.{sem_block_alone, sem_block_parks}
use user_level_thread_librar.Cond.{cond_wait, park_on_cond, queue_on_cond}
use user_level_thread_librar.Cond.Refinement.{cond_wait_alone, cond_wait_switches}
use user_level_thread_librar.System.Locks.Kept.{revive-KeepsLocks}

sems-hand_over : (p : Policy) (m : ℕ) (q : List ℕ) (s : Machine) → (hand_over p m q s).sems ≡ s.sems
sems-hand_over p m [] s = refl
sems-hand_over p m (t ∷ q) s = (revive-KeepsLocks p t _).sems

sems-lock_held :
    (caller : Caller) (m : ℕ) (s : Machine) → (after (lock_held caller m s)).sems ≡ s.sems
unfolding park_on_mutex queue_on_mutex swap_thread taken
sems-lock_held caller m s = elim (List-cases s.ready_queue) [
  | inl e ↦ rw (lock_held_alone caller m s e) refl
  | inr (next, q, e) ↦ rw (lock_held_parks caller m next q s e) refl
]

pub sems-lock : (caller : Caller) (m : ℕ) (s : Machine) → (after (lock caller m s)).sems ≡ s.sems
unfolding lock
sems-lock caller m s = elim (Bool-cases (is_destroyed (s.mutexes m))) [
  | inl d ↦ rw (d, lock) refl
  | inr d ↦ elim (Bool-cases (is_free (s.mutexes m))) [
    | inl f ↦ rw (d, f, lock) refl
    | inr f ↦ rw (d, f, lock) (sems-lock_held caller m s)
  ]
]

pub sems-unlock :
    (p : Policy) (m : ℕ) (s : Machine) → (after (thread_mutex_unlock p (some m) s)).sems ≡ s.sems
unfolding thread_mutex_unlock
sems-unlock p m s = elim (Bool-cases (is_destroyed (s.mutexes m))) [
  | inl d ↦ rw (d, thread_mutex_unlock) refl
  | inr d ↦ elim (Bool-cases (is_free (s.mutexes m))) [
    | inl f ↦ rw (d, f, thread_mutex_unlock) refl
    | inr f ↦ rw (d, f, thread_mutex_unlock) (sems-hand_over p m (s.mutexes m).waiting_queue s)
  ]
]

pub sems-destroy : (m : ℕ) (s : Machine) → (after (thread_mutex_destroy (some m) s)).sems ≡ s.sems
unfolding thread_mutex_destroy
sems-destroy m s = elim (Bool-cases (is_empty (s.mutexes m).waiting_queue)) [
  | inl e ↦ rw (e, thread_mutex_destroy) refl
  | inr e ↦ rw (e, thread_mutex_destroy) refl
]

pub sems-cond_wait :
    (p : Policy) (c m : ℕ) (s : Machine) → (after (cond_wait p c m s)).sems ≡ s.sems
unfolding park_on_cond queue_on_cond swap_thread taken
sems-cond_wait p c m s = elim (List-cases s.ready_queue) [
  | inl e ↦ rw (cond_wait_alone p c m s e) (
      sems-lock Caller.cond_alone m (hand_over p m (s.mutexes m).waiting_queue s)
      ∙ sems-hand_over p m (s.mutexes m).waiting_queue s)
  | inr (next, q, e) ↦
      rw (cond_wait_switches p c m next q s e)
        (sems-hand_over p m (s.mutexes m).waiting_queue (taken next q s))
]

mutexes-sem_block : (m : ℕ) (s : Machine) → (after (sem_block m s)).mutexes ≡ s.mutexes
unfolding park_on_sem queue_on_sem swap_thread taken
mutexes-sem_block m s = elim (List-cases s.ready_queue) [
  | inl e ↦ rw (sem_block_alone m s e) refl
  | inr (next, q, e) ↦ rw (sem_block_parks m next q s e) refl
]

pub mutexes-wait : (m : ℕ) (s : Machine) → (after (thread_sem_wait (some m) s)).mutexes ≡ s.mutexes
unfolding thread_sem_wait
mutexes-wait m s = elim (Bool-cases (ltb_ℤ (pos 0) (s.sems m).count)) [
  | inl d ↦ rw (d, thread_sem_wait) refl
  | inr d ↦ rw (d, thread_sem_wait) (mutexes-sem_block m s)
]

mutexes-release_unit :
    (p : Policy) (m : ℕ) (q : List ℕ) (s : Machine) → (release_unit p m q s).mutexes ≡ s.mutexes
mutexes-release_unit p m [] s = refl
mutexes-release_unit p m (t ∷ q) s = (revive-KeepsLocks p t _).mutexes

pub mutexes-post :
    (p : Policy) (m : ℕ) (s : Machine) → (after (thread_sem_post p (some m) s)).mutexes ≡ s.mutexes
unfolding thread_sem_post
mutexes-post p m s = mutexes-release_unit p m (s.sems m).waiting_queue s

pub mutexes-sem_init :
    (m : ℕ) (v : ℤ) (s : Machine) → (after (thread_sem_init (some m) v s)).mutexes ≡ s.mutexes
unfolding thread_sem_init
mutexes-sem_init m v s = elim (Bool-cases (ltb_ℤ v (pos 0))) [
  | inl e ↦ rw (e, thread_sem_init) refl
  | inr e ↦ rw (e, thread_sem_init) refl
]

pub mutexes-sem_destroy :
    (m : ℕ) (s : Machine) → (after (thread_sem_destroy (some m) s)).mutexes ≡ s.mutexes
unfolding thread_sem_destroy
mutexes-sem_destroy m s = elim (Bool-cases (is_empty (s.sems m).waiting_queue)) [
  | inl e ↦ rw (e, thread_sem_destroy) refl
  | inr e ↦ rw (e, thread_sem_destroy) refl
]
