-- ===== src/Sem/Refinement.antt =====
-- src/thread_sem.c as moves of the abstract scheduler.
use user_level_thread_librar.Base.{
  ℕ, ◌≡◌, refl, Option, none, some, List, [], ◌∷◌, ◌++◌, inl, inr, ℤ, pos, ◌+ℤ◌, ◌-ℤ◌, ltb_ℤ,
  if◌then◌else◌, arith, Bool-cases, List-cases, is_empty,
}
use user_level_thread_librar.Machine.{
  returned, switched, minus_one, Policy, Machine, Sem, after, in_sem_wait,
}
use user_level_thread_librar.Scheduler.{taken}
use user_level_thread_librar.Scheduler.Queue.{pick_next-cons, pick_next-nil}
use user_level_thread_librar.Abstract.{
  Channel, same, on_sem, on_join, Moves, done, more, stays, wakes,
}
use user_level_thread_librar.Refinement.{view, waits_in, IsSound}
use user_level_thread_librar.Refinement.Park.{park_on}
use user_level_thread_librar.Refinement.Queues.{Requeued, Requeued-Stay, Requeued-Unqueued}
use user_level_thread_librar.Refinement.Revive.{revive-Wake}
use user_level_thread_librar.Sem.{
  set_sem, queue_on_sem, park_on_sem, sem_block, release_unit, thread_sem_init, thread_sem_destroy,
  thread_sem_wait, thread_sem_post,
}

requeued :
    (m : ℕ) (se : Sem) (s : Machine) → Requeued (on_sem m) se.waiting_queue s (set_sem m se s)
requeued m se s = record {
  current = refl;
  ready_queue = refl;
  state = λ t. refl;
  queued = λ t. refl;
  context = λ t. refl;
  waits = waits;
}
  where
    waits :
        (d : Channel)
        → waits_in (set_sem m se s) d
          ≡ (if same d (on_sem m) then se.waiting_queue else waits_in s d)
    waits (on_sem k) = ground arith
    waits _ = refl

-- Another value of `count` is nothing that the scheduler sees.
set_count-Moves :
    (m : ℕ) (l : ℤ) (s : Machine)
    → IsSound s
    → Moves (view s) (view (set_sem m (record (s.sems m) { count = l }) s))
set_count-Moves m l s i = more done (stays (Requeued-Stay i (requeued m _ s) refl))

-- A released unit wakes the first waiter, or changes nothing that the scheduler sees.
pub release_unit-Moves :
    (policy : Policy) (m : ℕ) (q : List ℕ) (s : Machine)
    → IsSound s
    → (s.sems m).waiting_queue ≡ q
    → Moves (view s) (view (release_unit policy m q s))
release_unit-Moves policy m [] s i e = set_count-Moves m ((s.sems m).count +ℤ pos 1) s i
release_unit-Moves policy m (revived ∷ q) s i e =
    more done
      (wakes (on_sem m) revived (revive-Wake policy i (Requeued-Unqueued i (requeued m _ s) e)))

waits-queue_on_sem :
    (m next : ℕ) (q : List ℕ) (s : Machine) (d : Channel)
    → IsSound s
    → s.ready_queue ≡ next ∷ q
    → waits_in (queue_on_sem m s.current_thread (taken next q s)) d ≡ (
        if same d (on_sem m)
        then (s.sems m).waiting_queue ++ s.current_thread ∷ []
        else waits_in s d)
unfolding queue_on_sem taken
waits-queue_on_sem m next q s (on_sem k) i e = ground arith
waits-queue_on_sem m next q s (on_join t) i e = ground (arith, i.one_running s.current_thread)
waits-queue_on_sem m next q s d i e = ground arith

park_on_sem-Moves :
    (m next : ℕ) (q : List ℕ) (s : Machine)
    → IsSound s
    → s.ready_queue ≡ next ∷ q
    → Moves (view s) (view (park_on_sem m s.current_thread next (taken next q s)))
unfolding park_on_sem queue_on_sem taken
park_on_sem-Moves m next q s i e =
    (park_on (in_sem_wait m) (on_sem m) next s (queue_on_sem m s.current_thread (taken next q s)) i
      refl e (λ t. ground arith) (λ t. ground arith) (λ t. ground arith)
      (λ d. waits-queue_on_sem m next q s d i e))

pub sem_block_alone :
    (m : ℕ) (s : Machine) → s.ready_queue ≡ [] → sem_block m s ≡ returned minus_one s
unfolding sem_block
sem_block_alone m s e = rw (pick_next-nil s e, sem_block)

pub sem_block_parks :
    (m next : ℕ) (q : List ℕ) (s : Machine)
    → s.ready_queue ≡ next ∷ q
    → sem_block m s ≡ switched (park_on_sem m s.current_thread next (taken next q s))
unfolding sem_block
sem_block_parks m next q s e = rw (pick_next-cons next q s e, sem_block)

sem_block-Moves : (m : ℕ) (s : Machine) → IsSound s → Moves (view s) (view (after (sem_block m s)))
sem_block-Moves m s i = elim (List-cases s.ready_queue) [
  | inl e ↦ rw (sem_block_alone m s e) done
  | inr (next, q, e) ↦ rw (sem_block_parks m next q s e) (park_on_sem-Moves m next q s i e)
]

pub thread_sem_wait-Moves :
    (m : Option ℕ) (s : Machine) → IsSound s → Moves (view s) (view (after (thread_sem_wait m s)))
unfolding thread_sem_wait
thread_sem_wait-Moves none s i = done
thread_sem_wait-Moves (some m) s i = elim (Bool-cases (ltb_ℤ (pos 0) (s.sems m).count)) [
  | inl p ↦ rw (p, thread_sem_wait) (set_count-Moves m ((s.sems m).count -ℤ pos 1) s i)
  | inr n ↦ rw (n, thread_sem_wait) (sem_block-Moves m s i)
]

pub thread_sem_post-Moves :
    (policy : Policy) (m : Option ℕ) (s : Machine)
    → IsSound s
    → Moves (view s) (view (after (thread_sem_post policy m s)))
unfolding thread_sem_post
thread_sem_post-Moves policy none s i = done
thread_sem_post-Moves policy (some m) s i = release_unit-Moves policy m _ s i refl

pub thread_sem_destroy-Moves :
    (m : Option ℕ) (s : Machine)
    → IsSound s
    → Moves (view s) (view (after (thread_sem_destroy m s)))
unfolding thread_sem_destroy
thread_sem_destroy-Moves none s i = done
thread_sem_destroy-Moves (some m) s i = elim (Bool-cases (is_empty (s.sems m).waiting_queue)) [
  | inl e ↦ rw (e, thread_sem_destroy) (set_count-Moves m (pos 0) s i)
  | inr w ↦ rw (w, thread_sem_destroy) done
]

-- The initialisation of a semaphore on which no thread waits.
pub thread_sem_init-Moves :
    (m : ℕ) (value : ℤ) (s : Machine)
    → IsSound s
    → (s.sems m).waiting_queue ≡ []
    → Moves (view s) (view (after (thread_sem_init (some m) value s)))
unfolding thread_sem_init
thread_sem_init-Moves m value s i e = elim (Bool-cases (ltb_ℤ value (pos 0))) [
  | inl n ↦ rw (n, thread_sem_init) done
  | inr p ↦
      rw (p, thread_sem_init)
        (more done
          (stays (Requeued-Stay i (requeued m (record { count = value; waiting_queue = [] }) s) e)))
]
