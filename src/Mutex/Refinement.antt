-- ===== src/Mutex/Refinement.antt =====
-- src/thread_mutex.c as moves of the abstract scheduler.
use user_level_thread_librar.Base.{
  ℕ, ◌≡◌, refl, Option, none, some, List, [], ◌∷◌, ◌++◌, inl, inr, ℤ, pos, negsuc, if◌then◌else◌,
  arith, Bool-cases, List-cases, is_empty,
}
use user_level_thread_librar.Machine.{
  returned, switched, minus_one, Policy, Machine, Mutex, Caller, after, in_lock,
}
use user_level_thread_librar.Scheduler.{taken}
use user_level_thread_librar.Scheduler.Queue.{pick_next-cons, pick_next-nil}
use user_level_thread_librar.Abstract.{
  Channel, same, on_mutex, on_join, Moves, done, more, stays, wakes,
}
use user_level_thread_librar.Refinement.{view, waits_in, IsSound}
use user_level_thread_librar.Refinement.Park.{park_on}
use user_level_thread_librar.Refinement.Queues.{Requeued, Requeued-Stay, Requeued-Unqueued}
use user_level_thread_librar.Refinement.Revive.{revive-Wake}
use user_level_thread_librar.Mutex.{
  set_mutex, is_destroyed, is_free, caller_result, hand_over, park_on_mutex, queue_on_mutex,
  lock_held, lock, thread_mutex_init, thread_mutex_destroy, thread_mutex_lock, thread_mutex_unlock,
}

requeued :
    (m : ℕ) (mu : Mutex) (s : Machine) → Requeued (on_mutex m) mu.waiting_queue s (set_mutex m mu s)
requeued m mu s = record {
  current = refl;
  ready_queue = refl;
  state = λ t. refl;
  queued = λ t. refl;
  context = λ t. refl;
  waits = waits;
}
  where
    waits :
        (d : Channel)
        → waits_in (set_mutex m mu s) d
          ≡ (if same d (on_mutex m) then mu.waiting_queue else waits_in s d)
    waits (on_mutex k) = ground arith
    waits _ = refl

-- Another value of `locked` is nothing that the scheduler sees.
set_locked-Moves :
    (m : ℕ) (l : ℤ) (s : Machine)
    → IsSound s
    → Moves (view s) (view (set_mutex m (record (s.mutexes m) { locked = l }) s))
set_locked-Moves m l s i = more done (stays (Requeued-Stay i (requeued m _ s) refl))

-- The release of a held mutex wakes the first waiter, or changes nothing that the scheduler sees.
pub hand_over-Moves :
    (policy : Policy) (m : ℕ) (q : List ℕ) (s : Machine)
    → IsSound s
    → (s.mutexes m).waiting_queue ≡ q
    → Moves (view s) (view (hand_over policy m q s))
hand_over-Moves policy m [] s i e = set_locked-Moves m (pos 0) s i
hand_over-Moves policy m (revived ∷ q) s i e =
    more done
      (wakes (on_mutex m) revived (revive-Wake policy i (Requeued-Unqueued i (requeued m _ s) e)))

waits-queue_on_mutex :
    (m next : ℕ) (q : List ℕ) (s : Machine) (d : Channel)
    → IsSound s
    → s.ready_queue ≡ next ∷ q
    → waits_in (queue_on_mutex m s.current_thread (taken next q s)) d ≡ (
        if same d (on_mutex m)
        then (s.mutexes m).waiting_queue ++ s.current_thread ∷ []
        else waits_in s d)
unfolding queue_on_mutex taken
waits-queue_on_mutex m next q s (on_mutex k) i e = ground arith
waits-queue_on_mutex m next q s (on_join t) i e = ground (arith, i.one_running s.current_thread)
waits-queue_on_mutex m next q s d i e = ground arith

park_on_mutex-Moves :
    (caller : Caller) (m next : ℕ) (q : List ℕ) (s : Machine)
    → IsSound s
    → s.ready_queue ≡ next ∷ q
    → Moves (view s) (view (park_on_mutex caller m s.current_thread next (taken next q s)))
unfolding park_on_mutex queue_on_mutex taken
park_on_mutex-Moves caller m next q s i e =
    (park_on (in_lock m caller) (on_mutex m) next s
      (queue_on_mutex m s.current_thread (taken next q s)) i refl e (λ t. ground arith)
      (λ t. ground arith) (λ t. ground arith) (λ d. waits-queue_on_mutex m next q s d i e))

pub lock_held_alone :
    (caller : Caller) (m : ℕ) (s : Machine)
    → s.ready_queue ≡ []
    → lock_held caller m s ≡ returned (caller_result caller minus_one) s
unfolding lock_held
lock_held_alone caller m s e = rw (pick_next-nil s e, lock_held)

pub lock_held_parks :
    (caller : Caller) (m next : ℕ) (q : List ℕ) (s : Machine)
    → s.ready_queue ≡ next ∷ q
    → lock_held caller m s
      ≡ switched (park_on_mutex caller m s.current_thread next (taken next q s))
unfolding lock_held
lock_held_parks caller m next q s e = rw (pick_next-cons next q s e, lock_held)

lock_held-Moves :
    (caller : Caller) (m : ℕ) (s : Machine)
    → IsSound s
    → Moves (view s) (view (after (lock_held caller m s)))
lock_held-Moves caller m s i = elim (List-cases s.ready_queue) [
  | inl e ↦ rw (lock_held_alone caller m s e) done
  | inr (next, q, e) ↦
      rw (lock_held_parks caller m next q s e) (park_on_mutex-Moves caller m next q s i e)
]

-- A call of `thread_mutex_lock`, by the program or inside `thread_cond_wait`.
pub lock-Moves :
    (caller : Caller) (m : ℕ) (s : Machine)
    → IsSound s
    → Moves (view s) (view (after (lock caller m s)))
unfolding lock
lock-Moves caller m s i = elim (Bool-cases (is_destroyed (s.mutexes m))) [
  | inl d ↦ rw (lock, d) done
  | inr l ↦ elim (Bool-cases (is_free (s.mutexes m))) [
    | inl f ↦ rw (lock, l, f) (set_locked-Moves m (pos 1) s i)
    | inr h ↦ rw (lock, l, h) (lock_held-Moves caller m s i)
  ]
]

pub thread_mutex_lock-Moves :
    (m : Option ℕ) (s : Machine) → IsSound s → Moves (view s) (view (after (thread_mutex_lock m s)))
unfolding thread_mutex_lock
thread_mutex_lock-Moves none s i = done
thread_mutex_lock-Moves (some m) s i = lock-Moves Caller.program m s i

pub thread_mutex_unlock-Moves :
    (policy : Policy) (m : Option ℕ) (s : Machine)
    → IsSound s
    → Moves (view s) (view (after (thread_mutex_unlock policy m s)))
unfolding thread_mutex_unlock
thread_mutex_unlock-Moves policy none s i = done
thread_mutex_unlock-Moves policy (some m) s i = elim (Bool-cases (is_destroyed (s.mutexes m))) [
  | inl d ↦ rw (d, thread_mutex_unlock) done
  | inr l ↦ elim (Bool-cases (is_free (s.mutexes m))) [
    | inl f ↦ rw (l, f, thread_mutex_unlock) done
    | inr h ↦ rw (l, h, thread_mutex_unlock) (hand_over-Moves policy m _ s i refl)
  ]
]

pub thread_mutex_destroy-Moves :
    (m : Option ℕ) (s : Machine)
    → IsSound s
    → Moves (view s) (view (after (thread_mutex_destroy m s)))
unfolding thread_mutex_destroy
thread_mutex_destroy-Moves none s i = done
thread_mutex_destroy-Moves (some m) s i = elim (Bool-cases (is_empty (s.mutexes m).waiting_queue)) [
  | inl e ↦ rw (e, thread_mutex_destroy) (set_locked-Moves m (negsuc 0) s i)
  | inr w ↦ rw (w, thread_mutex_destroy) done
]

-- The initialisation of a mutex on which no thread waits.
pub thread_mutex_init-Moves :
    (m : ℕ) (s : Machine)
    → IsSound s
    → (s.mutexes m).waiting_queue ≡ []
    → Moves (view s) (view (after (thread_mutex_init (some m) s)))
unfolding thread_mutex_init
thread_mutex_init-Moves m s i e =
    more done
      (stays (Requeued-Stay i (requeued m (record { locked = pos 0; waiting_queue = [] }) s) e))
