-- ===== src/Cond/Refinement.antt =====
-- src/thread_cond.c as moves of the abstract scheduler. `thread_cond_wait` is two moves, the
-- hand-over of the mutex and the switch, which the code interleaves.
use user_level_thread_librar.Base.{
  ℕ, ◌≡◌, refl, Option, none, some, List, [], ◌∷◌, ◌++◌, inl, inr, if◌then◌else◌, arith, Bool-cases,
  List-cases, is_empty,
}
use user_level_thread_librar.Machine.{Policy, Machine, Cond, Caller, after, in_cond_wait, switched}
use user_level_thread_librar.Scheduler.{thread_scheduler_enqueue, revive, taken}
use user_level_thread_librar.Scheduler.Queue.{pick_next-cons, pick_next-nil}
use user_level_thread_librar.Abstract.{
  Channel, same, on_cond, on_join, Moves, done, more, stays, wakes,
}
use user_level_thread_librar.Abstract.Preservation.{Moves-trans, Moves-Inv}
use user_level_thread_librar.Refinement.{view, waits_in, IsSound}
use user_level_thread_librar.Refinement.Park.{park_on}
use user_level_thread_librar.Refinement.Queues.{Requeued, Requeued-Stay, Requeued-Unqueued}
use user_level_thread_librar.Refinement.Revive.{revive-Wake}
use user_level_thread_librar.Mutex.{hand_over, lock}
use user_level_thread_librar.Mutex.Refinement.{hand_over-Moves, lock-Moves}
use user_level_thread_librar.Cond.Handover.{wake_and_park-Moves}
use user_level_thread_librar.Cond.{
  set_cond, queue_on_cond, park_on_cond, cond_wait, cond_wait_resumed, wake_first, wake_all,
  thread_cond_init, thread_cond_destroy, thread_cond_wait, thread_cond_signal,
  thread_cond_broadcast,
}

requeued :
    (m : ℕ) (co : Cond) (s : Machine) → Requeued (on_cond m) co.waiting_queue s (set_cond m co s)
requeued m co s = record {
  current = refl;
  ready_queue = refl;
  state = λ t. refl;
  queued = λ t. refl;
  context = λ t. refl;
  waits = waits;
}
  where
    waits :
        (d : Channel)
        → waits_in (set_cond m co s) d
          ≡ (if same d (on_cond m) then co.waiting_queue else waits_in s d)
    waits (on_cond k) = ground arith
    waits _ = refl

waits-queue_on_cond :
    (m next : ℕ) (q : List ℕ) (s : Machine) (d : Channel)
    → IsSound s
    → s.ready_queue ≡ next ∷ q
    → waits_in (queue_on_cond m s.current_thread (taken next q s)) d ≡ (
        if same d (on_cond m)
        then (s.conds m).waiting_queue ++ s.current_thread ∷ []
        else waits_in s d)
unfolding queue_on_cond taken
waits-queue_on_cond m next q s (on_cond k) i e = ground arith
waits-queue_on_cond m next q s (on_join t) i e = ground (arith, i.one_running s.current_thread)
waits-queue_on_cond m next q s d i e = ground arith

park_on_cond-Moves :
    (c m next : ℕ) (q : List ℕ) (s : Machine)
    → IsSound s
    → s.ready_queue ≡ next ∷ q
    → Moves (view s) (view (park_on_cond c m s.current_thread next (taken next q s)))
unfolding park_on_cond queue_on_cond taken
park_on_cond-Moves c m next q s i e =
    (park_on (in_cond_wait c m) (on_cond c) next s
      (queue_on_cond c s.current_thread (taken next q s)) i refl e (λ t. ground arith)
      (λ t. ground arith) (λ t. ground arith) (λ d. waits-queue_on_cond c next q s d i e))

pub cond_wait_alone :
    (policy : Policy) (c m : ℕ) (s : Machine)
    → s.ready_queue ≡ []
    → cond_wait policy c m s
      ≡ lock Caller.cond_alone m (hand_over policy m (s.mutexes m).waiting_queue s)
unfolding cond_wait
cond_wait_alone policy c m s e = rw (pick_next-nil s e, cond_wait)

pub cond_wait_switches :
    (policy : Policy) (c m next : ℕ) (q : List ℕ) (s : Machine)
    → s.ready_queue ≡ next ∷ q
    → cond_wait policy c m s
      ≡ switched (
          park_on_cond c m s.current_thread next
            (hand_over policy m (s.mutexes m).waiting_queue (taken next q s)))
unfolding cond_wait taken
cond_wait_switches policy c m next q s e = rw (pick_next-cons next q s e, cond_wait)

-- The released mutex has a waiter or none.
released-Moves :
    (policy : Policy) (c m next : ℕ) (q l : List ℕ) (s : Machine)
    → IsSound s
    → s.ready_queue ≡ next ∷ q
    → (s.mutexes m).waiting_queue ≡ l
    → Moves
        (view s)
        (view (park_on_cond c m s.current_thread next (hand_over policy m l (taken next q s))))
unfolding taken
released-Moves policy c m next q [] s i e first =
    Moves-trans (hand_over-Moves policy m [] s i first) (
      park_on_cond-Moves c m next q (hand_over policy m [] s)
        (Moves-Inv (hand_over-Moves policy m [] s i first) i) e)
released-Moves policy c m next q (x ∷ ws) s i e first =
    wake_and_park-Moves policy c m x next q ws s i e first

cond_wait-Moves :
    (policy : Policy) (c m : ℕ) (s : Machine)
    → IsSound s
    → Moves (view s) (view (after (cond_wait policy c m s)))
cond_wait-Moves policy c m s i = elim (List-cases s.ready_queue) [
  | inl e ↦ rw (cond_wait_alone policy c m s e) (
      Moves-trans (hand_over-Moves policy m _ s i refl)
        (lock-Moves Caller.cond_alone m _ (Moves-Inv (hand_over-Moves policy m _ s i refl) i)))
  | inr (next, q, e) ↦
      rw (cond_wait_switches policy c m next q s e) (released-Moves policy c m next q _ s i e refl)
]

pub thread_cond_wait-Moves :
    (policy : Policy) (c m : Option ℕ) (s : Machine)
    → IsSound s
    → Moves (view s) (view (after (thread_cond_wait policy c m s)))
unfolding thread_cond_wait
thread_cond_wait-Moves policy none m s i = done
thread_cond_wait-Moves policy (some c) none s i = done
thread_cond_wait-Moves policy (some c) (some m) s i = cond_wait-Moves policy c m s i

pub cond_wait_resumed-Moves :
    (m : ℕ) (s : Machine) → IsSound s → Moves (view s) (view (after (cond_wait_resumed m s)))
unfolding cond_wait_resumed
cond_wait_resumed-Moves m s i = lock-Moves Caller.cond_end m s i

pub wake_first-Moves :
    (policy : Policy) (c : ℕ) (q : List ℕ) (s : Machine)
    → IsSound s
    → (s.conds c).waiting_queue ≡ q
    → Moves (view s) (view (wake_first policy c q s))
wake_first-Moves policy c [] s i e = done
wake_first-Moves policy c (revived ∷ q) s i e =
    more done
      (wakes (on_cond c) revived (revive-Wake policy i (Requeued-Unqueued i (requeued c _ s) e)))

pub thread_cond_signal-Moves :
    (policy : Policy) (c : Option ℕ) (s : Machine)
    → IsSound s
    → Moves (view s) (view (after (thread_cond_signal policy c s)))
unfolding thread_cond_signal
thread_cond_signal-Moves policy none s i = done
thread_cond_signal-Moves policy (some c) s i = wake_first-Moves policy c _ s i refl

pub conds-revive :
    (policy : Policy) (x c : ℕ) (q : List ℕ) (s : Machine)
    → ((revive policy x (set_cond c (record { waiting_queue = q }) s)).conds c).waiting_queue ≡ q
unfolding revive thread_scheduler_enqueue
conds-revive policy x c q s = ground arith

-- Each round of the loop wakes the first waiter that is left.
wake_all-Moves :
    (policy : Policy) (c : ℕ) (q : List ℕ) (s : Machine)
    → IsSound s
    → (s.conds c).waiting_queue ≡ q
    → Moves (view s) (view (wake_all policy c q s))
unfolding wake_all
wake_all-Moves policy c [] s i e = done
wake_all-Moves policy c (revived ∷ q) s i e =
    Moves-trans (wake_first-Moves policy c (revived ∷ q) s i e) (
      wake_all-Moves policy c q _ (Moves-Inv (wake_first-Moves policy c (revived ∷ q) s i e) i)
        (conds-revive policy revived c q s))

pub thread_cond_broadcast-Moves :
    (policy : Policy) (c : Option ℕ) (s : Machine)
    → IsSound s
    → Moves (view s) (view (after (thread_cond_broadcast policy c s)))
unfolding thread_cond_broadcast
thread_cond_broadcast-Moves policy none s i = done
thread_cond_broadcast-Moves policy (some c) s i = wake_all-Moves policy c _ s i refl

pub thread_cond_destroy-Moves :
    (c : Option ℕ) (s : Machine)
    → IsSound s
    → Moves (view s) (view (after (thread_cond_destroy c s)))
unfolding thread_cond_destroy
thread_cond_destroy-Moves none s i = done
thread_cond_destroy-Moves (some c) s i = elim (Bool-cases (is_empty (s.conds c).waiting_queue)) [
  | inl e ↦ rw (e, thread_cond_destroy) done
  | inr w ↦ rw (w, thread_cond_destroy) done
]

-- The initialisation of a condition on which no thread waits.
pub thread_cond_init-Moves :
    (c : ℕ) (s : Machine)
    → IsSound s
    → (s.conds c).waiting_queue ≡ []
    → Moves (view s) (view (after (thread_cond_init (some c) s)))
unfolding thread_cond_init
thread_cond_init-Moves c s i e =
    more done (stays (Requeued-Stay i (requeued c (record { waiting_queue = [] }) s) e))
