-- ===== src/Mutex/Ownership.antt =====
-- src/thread_mutex.c: the field `locked` while threads wait for a mutex.
use user_level_thread_librar.Base.{
  ℕ, ◌≡◌, ◌≢◌, refl, ap, inl, inr, Bool, true, false, ◌||◌, ◌&&◌, some, List, [], ◌∷◌, pos, eqb_ℤ,
  arith, is_empty, List-cases, Bool-cases,
}
use user_level_thread_librar.Machine.{
  Policy, Machine, Mutex, State, Caller, returned, after, swap_thread, zero_rc,
}
use user_level_thread_librar.Scheduler.{thread_scheduler_enqueue, revive, taken}
use user_level_thread_librar.Mutex.{
  queue_on_mutex, park_on_mutex, lock_held, lock, thread_mutex_lock, hand_over, thread_mutex_unlock,
  thread_mutex_destroy, is_free, is_destroyed, set_mutex,
}
use user_level_thread_librar.Mutex.Refinement.{lock_held_alone, lock_held_parks}

-- `locked` is 0, 1 or -1, and 1 while threads wait.
abbrev pub is_guarded : Mutex → Bool
is_guarded mu =
    eqb_ℤ mu.locked (pos 1) || is_empty mu.waiting_queue && (is_free mu || is_destroyed mu)

abbrev pub IsGuarded : Machine → Type 0
IsGuarded s = (m : ℕ) → is_guarded (s.mutexes m) ≡ true

mutexes-revive : (p : Policy) (x : ℕ) (s : Machine) → (revive p x s).mutexes ≡ s.mutexes
unfolding revive thread_scheduler_enqueue
mutexes-revive p x s = ground arith

pub hand_over-IsGuarded :
    (p : Policy) (m : ℕ) (q : List ℕ) (s : Machine)
    → (s.mutexes m).waiting_queue ≡ q
    → IsGuarded s
    → IsGuarded (hand_over p m q s)
hand_over-IsGuarded p m [] s e g j = ground (arith, e, g j, g m)
hand_over-IsGuarded p m (x ∷ q) s e g j =
    rw (mutexes-revive p x (set_mutex m (record (s.mutexes m) { waiting_queue = q }) s))
      (ground (arith, e, g j, g m))

park-IsGuarded :
    (caller : Caller) (m prev next : ℕ) (q : List ℕ) (s : Machine)
    → eqb_ℤ (s.mutexes m).locked (pos 1) ≡ true
    → IsGuarded s
    → IsGuarded (park_on_mutex caller m prev next (taken next q s))
unfolding park_on_mutex queue_on_mutex swap_thread taken
park-IsGuarded caller m prev next q s h g j = ground (arith, h, g j)

lock_held-IsGuarded :
    (caller : Caller) (m : ℕ) (s : Machine)
    → eqb_ℤ (s.mutexes m).locked (pos 1) ≡ true
    → IsGuarded s
    → IsGuarded (after (lock_held caller m s))
lock_held-IsGuarded caller m s h g = elim (List-cases s.ready_queue) [
  | inl e ↦ rw (lock_held_alone caller m s e) g
  | inr (next, q, e) ↦
      rw (lock_held_parks caller m next q s e)
        (park-IsGuarded caller m s.current_thread next q s h g)
]

pub lock-IsGuarded :
    (caller : Caller) (m : ℕ) (s : Machine) → IsGuarded s → IsGuarded (after (lock caller m s))
unfolding lock
lock-IsGuarded caller m s g = elim (Bool-cases (is_destroyed (s.mutexes m))) [
  | inl d ↦ rw (d, lock) g
  | inr d ↦ elim (Bool-cases (is_free (s.mutexes m))) [
    | inl f ↦ rw (d, f, lock) (λ j. ground (arith, f, g j, g m))
    | inr f ↦ rw (d, f, lock) (lock_held-IsGuarded caller m s (ground (arith, d, f, g m)) g)
  ]
]

thread_mutex_unlock-IsGuarded :
    (p : Policy) (m : ℕ) (s : Machine)
    → IsGuarded s
    → IsGuarded (after (thread_mutex_unlock p (some m) s))
unfolding thread_mutex_unlock
thread_mutex_unlock-IsGuarded p m s g = elim (Bool-cases (is_destroyed (s.mutexes m))) [
  | inl d ↦ rw (d, thread_mutex_unlock) g
  | inr d ↦ elim (Bool-cases (is_free (s.mutexes m))) [
    | inl f ↦ rw (d, f, thread_mutex_unlock) g
    | inr f ↦
        rw (d, f, thread_mutex_unlock)
          (hand_over-IsGuarded p m (s.mutexes m).waiting_queue s refl g)
  ]
]

thread_mutex_destroy-IsGuarded :
    (m : ℕ) (s : Machine) → IsGuarded s → IsGuarded (after (thread_mutex_destroy (some m) s))
unfolding thread_mutex_destroy
thread_mutex_destroy-IsGuarded m s g = elim (Bool-cases (is_empty (s.mutexes m).waiting_queue)) [
  | inl e ↦ rw (e, thread_mutex_destroy) (λ j. ground (arith, e, g j, g m))
  | inr e ↦ rw (e, thread_mutex_destroy) g
]

-- Lock, unlock and destroy keep it true that every mutex is free, held or destroyed, and held
-- while threads wait for it, whatever they return and for either policy.
pub mutex_calls-IsGuarded :
    (p : Policy) (m : ℕ) (s : Machine)
    → IsGuarded s
    → IsGuarded (after (thread_mutex_lock (some m) s))
      × IsGuarded (after (thread_mutex_unlock p (some m) s))
      × IsGuarded (after (thread_mutex_destroy (some m) s))
unfolding thread_mutex_lock
mutex_calls-IsGuarded p m s g = (
  lock-IsGuarded Caller.program m s g,
  thread_mutex_unlock-IsGuarded p m s g,
  thread_mutex_destroy-IsGuarded m s g,
)

-- A mutex that is held is not given to a thread that asks for it.
lock-held :
    (m : ℕ) (s u : Machine)
    → eqb_ℤ (s.mutexes m).locked (pos 1) ≡ true
    → lock Caller.program m s ≢ returned zero_rc u
unfolding lock
lock-held m s u h =
    rw (free, alive, lock)
      (elim (List-cases s.ready_queue) [
        | inl e ↦ rw (lock_held_alone Caller.program m s e) (λ x. cc)
        | inr (next, q, e) ↦ rw (lock_held_parks Caller.program m next q s e) (λ x. cc)
      ])
  where
    alive : is_destroyed (s.mutexes m) ≡ false
    alive = ground (arith, h)

    free : is_free (s.mutexes m) ≡ false
    free = ground (arith, h)

unlock_waited :
    (p : Policy) (m x : ℕ) (q : List ℕ) (s : Machine)
    → IsGuarded s
    → (s.mutexes m).waiting_queue ≡ x ∷ q
    → thread_mutex_unlock p (some m) s ≡ returned zero_rc (hand_over p m (x ∷ q) s)
unfolding thread_mutex_unlock
unlock_waited p m x q s g e =
    rw (free, alive, thread_mutex_unlock) (ap (λ l. returned zero_rc (hand_over p m l s)) e)
  where
    alive : is_destroyed (s.mutexes m) ≡ false
    alive = ground (arith, e, g m)

    free : is_free (s.mutexes m) ≡ false
    free = ground (arith, e, g m)

state-revive : (p : Policy) (x : ℕ) (s : Machine) → ((revive p x s).threads x).state ≡ State.ready
unfolding revive thread_scheduler_enqueue
state-revive p x s = ground arith

-- An unlock with a waiter returns 0, takes the first waiter out of the queue and makes it ready;
-- the mutex stays held, so that no other call of lock gets it, if the mutexes were guarded.
pub unlock-hand_over :
    (p : Policy) (m x : ℕ) (q : List ℕ) (s u : Machine)
    → IsGuarded s
    → (s.mutexes m).waiting_queue ≡ x ∷ q
    → (t : Machine) × (thread_mutex_unlock p (some m) s ≡ returned zero_rc t)
      × ((t.mutexes m).waiting_queue ≡ q)
      × ((t.threads x).state ≡ State.ready)
      × (thread_mutex_lock (some m) t ≢ returned zero_rc u)
unfolding thread_mutex_lock
unlock-hand_over p m x q s u g e = (
  hand_over p m (x ∷ q) s,
  unlock_waited p m x q s g e,
  rw (mutexes-revive p x r) (ground arith),
  state-revive p x r,
  lock-held m (hand_over p m (x ∷ q) s) u (rw (mutexes-revive p x r) (ground (arith, e, g m))),
)
  where
    r : Machine
    r = set_mutex m (record (s.mutexes m) { waiting_queue = q }) s
