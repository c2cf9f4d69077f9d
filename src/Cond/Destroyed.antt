-- ===== src/Cond/Destroyed.antt =====
-- src/thread_cond.c: `thread_cond_wait` with a mutex that has been destroyed.
use user_level_thread_librar.Base.{
  ℕ, ◌≡◌, refl, ap, ◌∙◌, some, true, false, List, [], ◌∷◌, pos, arith,
}
use user_level_thread_librar.Machine.{
  Policy, Machine, returned, switched, swap_thread, set_errno, einval, minus_one, zero_rc,
}
use user_level_thread_librar.Scheduler.{taken}
use user_level_thread_librar.Mutex.{
  is_destroyed, is_free, set_mutex, hand_over, lock, thread_mutex_lock, thread_mutex_unlock,
}
use user_level_thread_librar.Cond.{queue_on_cond, park_on_cond, thread_cond_wait}
use user_level_thread_librar.Cond.Refinement.{cond_wait_switches}

mutexes-park :
    (c m prev next : ℕ) (r : Machine) → (park_on_cond c m prev next r).mutexes ≡ r.mutexes
unfolding park_on_cond queue_on_cond swap_thread
mutexes-park c m prev next r = refl

module _ (p : Policy) (c m next : ℕ) (q : List ℕ) (s : Machine) (e : s.ready_queue ≡ next ∷ q)
    (idle : (s.mutexes m).waiting_queue ≡ []) where
  abbrev freed : Machine
  freed = park_on_cond c m s.current_thread next (hand_over p m [] (taken next q s))

  waits : thread_cond_wait p (some c) (some m) s ≡ switched freed
  unfolding thread_cond_wait
  waits =
      cond_wait_switches p c m next q s e
      ∙ ap
          (λ l.
            switched (park_on_cond c m s.current_thread next (hand_over p m l (taken next q s))))
          idle

  lock_free : is_free (freed.mutexes m) ≡ true
  unfolding taken
  lock_free =
      rw (mutexes-park c m s.current_thread next (hand_over p m [] (taken next q s))) (ground arith)

  lock_alive : is_destroyed (freed.mutexes m) ≡ false
  lock_alive = ground (arith, lock_free)

  locks :
      thread_mutex_lock (some m) freed
      ≡ returned zero_rc (set_mutex m (record (freed.mutexes m) { locked = pos 1 }) freed)
  unfolding thread_mutex_lock lock
  locks = rw (lock_alive, lock_free, lock) refl

-- A destroyed mutex without waiters, which lock and unlock refuse with -1, is free after a wait
-- that was given it while a thread is ready, so that a lock of it then returns 0.
pub cond_wait-destroyed :
    (p : Policy) (c m next : ℕ) (q : List ℕ) (s : Machine)
    → s.ready_queue ≡ next ∷ q
    → (s.mutexes m).waiting_queue ≡ []
    → is_destroyed (s.mutexes m) ≡ true
    → (t u : Machine) × (thread_mutex_lock (some m) s ≡ returned minus_one (set_errno einval s))
      × (thread_mutex_unlock p (some m) s ≡ returned minus_one (set_errno einval s))
      × (thread_cond_wait p (some c) (some m) s ≡ switched t)
      × (thread_mutex_lock (some m) t ≡ returned zero_rc u)
unfolding thread_mutex_lock thread_mutex_unlock lock
cond_wait-destroyed p c m next q s e idle d =
    let t = freed p c m next q s e idle in
    (
      t,
      set_mutex m (record (t.mutexes m) { locked = pos 1 }) t,
      rw (d, lock) refl,
      rw (d, thread_mutex_unlock) refl,
      waits p c m next q s e idle,
      locks p c m next q s e idle,
    )
