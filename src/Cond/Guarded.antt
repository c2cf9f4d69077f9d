-- ===== src/Cond/Guarded.antt =====
-- src/thread_cond.c: the mutex of a wait, and the threads that wait for it.
use user_level_thread_librar.Base.{ℕ, ◌≡◌, refl, some, inl, inr, List, List-cases}
use user_level_thread_librar.Machine.{Policy, Machine, Caller, after, swap_thread}
use user_level_thread_librar.Scheduler.{taken}
use user_level_thread_librar.Mutex.{hand_over}
use user_level_thread_librar.Mutex.Ownership.{IsGuarded, hand_over-IsGuarded, lock-IsGuarded}
use user_level_thread_librar.Cond.{
  queue_on_cond, park_on_cond, cond_wait, thread_cond_wait, cond_wait_resumed,
}
use user_level_thread_librar.Cond.Refinement.{cond_wait_alone, cond_wait_switches}

park-IsGuarded :
    (c m prev next : ℕ) (r : Machine) → IsGuarded r → IsGuarded (park_on_cond c m prev next r)
unfolding park_on_cond queue_on_cond swap_thread
park-IsGuarded c m prev next r g = g

taken-IsGuarded : (next : ℕ) (q : List ℕ) (s : Machine) → IsGuarded s → IsGuarded (taken next q s)
unfolding taken
taken-IsGuarded next q s g = g

waiters-taken :
    (m next : ℕ) (q : List ℕ) (s : Machine)
    → ((taken next q s).mutexes m).waiting_queue ≡ (s.mutexes m).waiting_queue
unfolding taken
waiters-taken m next q s = refl

-- A wait on a condition, on each of its branches, and its end when it is resumed keep it true that
-- every mutex is free, held or destroyed, and held while threads wait for it.
pub thread_cond_wait-IsGuarded :
    (p : Policy) (c m : ℕ) (s : Machine)
    → IsGuarded s
    → IsGuarded (after (thread_cond_wait p (some c) (some m) s))
      × IsGuarded (after (cond_wait_resumed m s))
unfolding thread_cond_wait cond_wait_resumed
thread_cond_wait-IsGuarded p c m s g = (begun, lock-IsGuarded Caller.cond_end m s g)
  where
    begun : IsGuarded (after (cond_wait p c m s))
    begun = elim (List-cases s.ready_queue) [
      | inl e ↦ rw (cond_wait_alone p c m s e) (
          lock-IsGuarded Caller.cond_alone m (hand_over p m (s.mutexes m).waiting_queue s)
            (hand_over-IsGuarded p m (s.mutexes m).waiting_queue s refl g))
      | inr (next, q, e) ↦ rw (cond_wait_switches p c m next q s e) (
          park-IsGuarded c m s.current_thread next
            (hand_over p m (s.mutexes m).waiting_queue (taken next q s))
            (hand_over-IsGuarded p m (s.mutexes m).waiting_queue (taken next q s)
              (waiters-taken m next q s) (taken-IsGuarded next q s g)))
    ]
