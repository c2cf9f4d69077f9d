-- ===== src/Cond/Wakeup.antt =====
-- src/thread_cond.c: a wait and the signal of the thread that runs next.
use user_level_thread_librar.Base.{
  ℕ, ◌≡◌, refl, subst, ap, ◌∙◌, some, true, List, [], ◌∷◌, ◌++◌, elem, arith,
}
use user_level_thread_librar.Machine.{
  Policy, Machine, State, returned, switched, after, swap_thread, zero_rc,
}
use user_level_thread_librar.Scheduler.{thread_scheduler_enqueue, revive, taken}
use user_level_thread_librar.Scheduler.Queue.{elem-revive}
use user_level_thread_librar.Mutex.{hand_over}
use user_level_thread_librar.Cond.{
  set_cond, queue_on_cond, park_on_cond, thread_cond_wait, wake_first, thread_cond_signal,
}
use user_level_thread_librar.Cond.Refinement.{
  cond_wait_switches, thread_cond_wait-Moves, conds-revive,
}
use user_level_thread_librar.Cond.Broadcast.{waiter_out}
use user_level_thread_librar.Abstract.Preservation.{Moves-Inv}
use user_level_thread_librar.Refinement.{IsSound}

conds-hand_over :
    (p : Policy) (m : ℕ) (l : List ℕ) (s : Machine) → (hand_over p m l s).conds ≡ s.conds
unfolding revive thread_scheduler_enqueue
conds-hand_over p m [] s = refl
conds-hand_over p m (x ∷ q) s = ground arith

current-hand_over :
    (p : Policy) (m : ℕ) (l : List ℕ) (s : Machine)
    → (hand_over p m l s).current_thread ≡ s.current_thread
unfolding revive thread_scheduler_enqueue
current-hand_over p m [] s = refl
current-hand_over p m (x ∷ q) s = ground arith

waiters-park :
    (c m prev next : ℕ) (r : Machine)
    → ((park_on_cond c m prev next r).conds c).waiting_queue
      ≡ (r.conds c).waiting_queue ++ prev ∷ []
unfolding park_on_cond queue_on_cond swap_thread
waiters-park c m prev next r = ground arith

state-revive : (p : Policy) (x : ℕ) (s : Machine) → ((revive p x s).threads x).state ≡ State.ready
unfolding revive thread_scheduler_enqueue
state-revive p x s = ground arith

module _ (p : Policy) (c m next : ℕ) (q : List ℕ) (s : Machine) (i : IsSound s)
    (e : s.ready_queue ≡ next ∷ q) (idle : (s.conds c).waiting_queue ≡ []) where
  abbrev parked : Machine
  parked =
      park_on_cond c m s.current_thread next
        (hand_over p m (s.mutexes m).waiting_queue (taken next q s))

  waits : thread_cond_wait p (some c) (some m) s ≡ switched parked
  unfolding thread_cond_wait
  waits = cond_wait_switches p c m next q s e

  parked-IsSound : IsSound parked
  parked-IsSound =
      subst (λ o. IsSound (after o)) waits
        (Moves-Inv (thread_cond_wait-Moves p (some c) (some m) s i) i)

  parked_waiters : (parked.conds c).waiting_queue ≡ s.current_thread ∷ []
  unfolding taken
  parked_waiters =
      waiters-park c m s.current_thread next
        (hand_over p m (s.mutexes m).waiting_queue (taken next q s))
      ∙ ap (λ f. (f c).waiting_queue ++ s.current_thread ∷ [])
          (conds-hand_over p m (s.mutexes m).waiting_queue (taken next q s))
      ∙ ap (λ l. l ++ s.current_thread ∷ []) idle

  abbrev unqueued : Machine
  unqueued = set_cond c (record { waiting_queue = [] }) parked

  signals :
      thread_cond_signal p (some c) parked ≡ returned zero_rc (revive p s.current_thread unqueued)
  unfolding thread_cond_signal
  signals = ap (λ l. returned zero_rc (wake_first p c l parked)) parked_waiters

  woken_queue : elem s.current_thread (revive p s.current_thread unqueued).ready_queue ≡ true
  woken_queue =
      elem-revive p s.current_thread unqueued
        (waiter_out c s.current_thread [] parked parked-IsSound parked_waiters) s.current_thread
      ∙ ground arith

-- In a sound state with a ready thread, a wait on a condition without waiters switches to the first
-- ready thread, and its signal returns 0 and makes the waiting thread ready and queued, whatever
-- becomes of the mutex.
pub signal-wait :
    (p : Policy) (c m next : ℕ) (q : List ℕ) (s : Machine)
    → IsSound s
    → s.ready_queue ≡ next ∷ q
    → (s.conds c).waiting_queue ≡ []
    → (t u : Machine) × (thread_cond_wait p (some c) (some m) s ≡ switched t)
      × (t.current_thread ≡ next)
      × (thread_cond_signal p (some c) t ≡ returned zero_rc u)
      × ((u.conds c).waiting_queue ≡ [])
      × ((u.threads s.current_thread).state ≡ State.ready)
      × (elem s.current_thread u.ready_queue ≡ true)
unfolding park_on_cond swap_thread
signal-wait p c m next q s i e idle =
    let t = parked p c m next q s i e idle in
    (
      t,
      revive p s.current_thread (unqueued p c m next q s i e idle),
      waits p c m next q s i e idle,
      refl,
      signals p c m next q s i e idle,
      conds-revive p s.current_thread c [] t,
      state-revive p s.current_thread (unqueued p c m next q s i e idle),
      woken_queue p c m next q s i e idle,
    )
