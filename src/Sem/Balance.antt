-- ===== src/Sem/Balance.antt =====
-- src/thread_sem.c: the count of a semaphore and the threads that wait for it.
use user_level_thread_librar.Base.{
  ℕ, ◌≡◌, refl, inl, inr, Bool, true, ◌||◌, ◌&&◌, some, List, [], ◌∷◌, ℤ, pos, eqb_ℤ, ◌+ℤ◌, ◌-ℤ◌,
  leb_ℤ, ltb_ℤ, arith, is_empty, List-cases, Bool-cases,
}
use user_level_thread_librar.Machine.{Policy, Machine, Sem, after, swap_thread}
use user_level_thread_librar.Scheduler.{thread_scheduler_enqueue, revive, taken}
use user_level_thread_librar.Sem.{
  queue_on_sem, park_on_sem, sem_block, thread_sem_wait, release_unit, thread_sem_post,
  thread_sem_init, thread_sem_destroy, set_sem,
}
use user_level_thread_librar.Sem.Refinement.{sem_block_alone, sem_block_parks}

-- The count is not negative, and it is 0 while threads wait.
abbrev pub is_balanced : Sem → Bool
is_balanced se = leb_ℤ (pos 0) se.count && (is_empty se.waiting_queue || eqb_ℤ se.count (pos 0))

abbrev pub IsBalanced : Machine → Type 0
IsBalanced s = (m : ℕ) → is_balanced (s.sems m) ≡ true

sems-revive : (p : Policy) (x : ℕ) (s : Machine) → (revive p x s).sems ≡ s.sems
unfolding revive thread_scheduler_enqueue
sems-revive p x s = ground arith

park-IsBalanced :
    (m prev next : ℕ) (q : List ℕ) (s : Machine)
    → eqb_ℤ (s.sems m).count (pos 0) ≡ true
    → IsBalanced s
    → IsBalanced (park_on_sem m prev next (taken next q s))
unfolding park_on_sem queue_on_sem swap_thread taken
park-IsBalanced m prev next q s h g j = ground (arith, h, g j)

sem_block-IsBalanced :
    (m : ℕ) (s : Machine)
    → eqb_ℤ (s.sems m).count (pos 0) ≡ true
    → IsBalanced s
    → IsBalanced (after (sem_block m s))
sem_block-IsBalanced m s h g = elim (List-cases s.ready_queue) [
  | inl e ↦ rw (sem_block_alone m s e) g
  | inr (next, q, e) ↦
      rw (sem_block_parks m next q s e) (park-IsBalanced m s.current_thread next q s h g)
]

pub thread_sem_wait-IsBalanced :
    (m : ℕ) (s : Machine) → IsBalanced s → IsBalanced (after (thread_sem_wait (some m) s))
unfolding thread_sem_wait
thread_sem_wait-IsBalanced m s g = elim (Bool-cases (ltb_ℤ (pos 0) (s.sems m).count)) [
  | inl d ↦ rw (d, thread_sem_wait) (λ j. ground (arith, d, g j, g m))
  | inr d ↦ rw (d, thread_sem_wait) (sem_block-IsBalanced m s (ground (arith, d, g m)) g)
]

pub release_unit-IsBalanced :
    (p : Policy) (m : ℕ) (q : List ℕ) (s : Machine)
    → (s.sems m).waiting_queue ≡ q
    → IsBalanced s
    → IsBalanced (release_unit p m q s)
release_unit-IsBalanced p m [] s e g j = ground (arith, e, g j, g m)
release_unit-IsBalanced p m (x ∷ q) s e g j =
    rw (sems-revive p x (set_sem m (record (s.sems m) { waiting_queue = q }) s))
      (ground (arith, e, g j, g m))

thread_sem_destroy-IsBalanced :
    (m : ℕ) (s : Machine) → IsBalanced s → IsBalanced (after (thread_sem_destroy (some m) s))
unfolding thread_sem_destroy
thread_sem_destroy-IsBalanced m s g = elim (Bool-cases (is_empty (s.sems m).waiting_queue)) [
  | inl e ↦ rw (e, thread_sem_destroy) (λ j. ground (arith, e, g j, g m))
  | inr e ↦ rw (e, thread_sem_destroy) g
]

thread_sem_init-IsBalanced :
    (m : ℕ) (v : ℤ) (s : Machine) → IsBalanced s → IsBalanced (after (thread_sem_init (some m) v s))
unfolding thread_sem_init
thread_sem_init-IsBalanced m v s g = elim (Bool-cases (ltb_ℤ v (pos 0))) [
  | inl e ↦ rw (e, thread_sem_init) g
  | inr e ↦ rw (e, thread_sem_init) (λ j. ground (arith, e, g j))
]

-- Init, wait, post and destroy keep it true that no count is negative and that a semaphore with
-- waiters has the count 0, whatever they return and for either policy.
pub sem_calls-IsBalanced :
    (p : Policy) (m : ℕ) (v : ℤ) (s : Machine)
    → IsBalanced s
    → IsBalanced (after (thread_sem_init (some m) v s))
      × IsBalanced (after (thread_sem_wait (some m) s))
      × IsBalanced (after (thread_sem_post p (some m) s))
      × IsBalanced (after (thread_sem_destroy (some m) s))
unfolding thread_sem_post
sem_calls-IsBalanced p m v s g = (
  thread_sem_init-IsBalanced m v s g,
  thread_sem_wait-IsBalanced m s g,
  release_unit-IsBalanced p m (s.sems m).waiting_queue s refl g,
  thread_sem_destroy-IsBalanced m s g,
)

-- The semaphore after a post without waiters, and after a wait.
abbrev posted : ℕ → Machine → Machine
posted m s = set_sem m (record (s.sems m) { count = (s.sems m).count +ℤ pos 1 }) s

abbrev drawn : ℕ → Machine → Machine
drawn m s = set_sem m (record (s.sems m) { count = (s.sems m).count -ℤ pos 1 }) s
