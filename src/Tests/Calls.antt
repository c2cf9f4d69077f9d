-- ===== src/Tests/Calls.antt =====
-- The calls of one object at a time.
use user_level_thread_librar.Base.{ℕ, ◌≡◌, ◌≢◌, refl, some, true, ◌||◌, [], ◌∷◌, pos, arith, elem}
use user_level_thread_librar.Machine.{
  Machine, fifo, prio, State, returned, switched, after, zero_rc, minus_one, set_thread,
}
use user_level_thread_librar.Scheduler.{
  thread_yield, thread_yield_to, thread_set_priority, rank, yield_then, yield_next, age, requeue,
  thread_scheduler_pick_next, taken, thread_scheduler_enqueue,
}
use user_level_thread_librar.Scheduler.SetPriority.{thread_set_priority-Moves}
use user_level_thread_librar.Scheduler.Bounds.{IsInRange, scheduler_calls-IsInRange}
use user_level_thread_librar.Scheduler.Priority.{IsOrdered, IsHighest, thread_yield-IsHighest}
use user_level_thread_librar.Scheduler.RoundRobin.{yields, yield-rotates, yields-round_robin}
use user_level_thread_librar.Mutex.{set_mutex, thread_mutex_lock, thread_mutex_unlock}
use user_level_thread_librar.Mutex.Ownership.{IsGuarded, unlock-hand_over}
use user_level_thread_librar.Sem.{set_sem}
use user_level_thread_librar.Cond.{thread_cond_wait, thread_cond_signal, thread_cond_broadcast}
use user_level_thread_librar.Cond.Refinement.{thread_cond_wait-Moves}
use user_level_thread_librar.Cond.Broadcast.{broadcast-wakes_all}
use user_level_thread_librar.Base.{negsuc}
use user_level_thread_librar.Machine.{set_errno, einval}
use user_level_thread_librar.Cond.Destroyed.{cond_wait-destroyed}
use user_level_thread_librar.Cond.Wakeup.{signal-wait}
use user_level_thread_librar.Abstract.Preservation.{Moves-Inv}
use user_level_thread_librar.Refinement.{IsSound}
use user_level_thread_librar.Tests.Runs.{
  start, one_ready, one_ready-IsSound, two_ready, two_ready-IsSound,
}

yield-rotates_example :
    (t : Machine) × (thread_yield fifo two_ready ≡ switched t)
    × (t.current_thread ≡ 50)
    × (t.ready_queue ≡ 60 ∷ two_ready.current_thread ∷ [])
yield-rotates_example = yield-rotates 50 (60 ∷ []) two_ready two_ready-IsSound refl

yields-round_robin_example :
    ((yields 2 two_ready).current_thread ≡ 60)
    × ((yields 2 two_ready).ready_queue ≡ two_ready.current_thread ∷ 50 ∷ [])
yields-round_robin_example = yields-round_robin (50 ∷ []) 60 [] two_ready two_ready-IsSound refl

-- Thread 50 waits for a mutex that is held.
abbrev contended : Machine
contended = set_mutex 4 (record { locked = pos 1; waiting_queue = 50 ∷ [] }) start

contended-IsGuarded : IsGuarded contended
contended-IsGuarded m = ground arith

unlock-hand_over_example :
    (t : Machine) × (thread_mutex_unlock fifo (some 4) contended ≡ returned zero_rc t)
    × ((t.mutexes 4).waiting_queue ≡ [])
    × ((t.threads 50).state ≡ State.ready)
    × (thread_mutex_lock (some 4) t ≢ returned zero_rc start)
unlock-hand_over_example = unlock-hand_over fifo 4 50 [] contended start contended-IsGuarded refl

-- A semaphore with two units.
abbrev stocked : Machine
stocked = set_sem 4 (record { count = pos 2; waiting_queue = [] }) start

-- The program waits on a condition, and the thread that it has created runs.
abbrev waiting : Machine
waiting = after (thread_cond_wait fifo (some 4) (some 4) one_ready)

waiting-IsSound : IsSound waiting
waiting-IsSound =
    Moves-Inv (thread_cond_wait-Moves fifo (some 4) (some 4) one_ready one_ready-IsSound)
      one_ready-IsSound

broadcast-wakes_all_example :
    (t : Machine) × (thread_cond_broadcast fifo (some 4) waiting ≡ returned zero_rc t)
    × ((t.conds 4).waiting_queue ≡ [])
    × ((x : ℕ)
        → elem x t.ready_queue
          ≡ (elem x waiting.ready_queue || elem x (waiting.conds 4).waiting_queue))
broadcast-wakes_all_example = broadcast-wakes_all fifo 4 waiting waiting-IsSound

-- The program has the lowest priority, and two threads are ready.
abbrev humble : Machine
humble = after (thread_set_priority fifo (some 0) (pos 0) two_ready)

humble-IsSound : IsSound humble
humble-IsSound =
    Moves-Inv (thread_set_priority-Moves fifo (some 0) (pos 0) two_ready two_ready-IsSound)
      two_ready-IsSound

humble-IsOrdered : IsOrdered humble
unfolding thread_set_priority rank
humble-IsOrdered = refl

humble_yields : thread_yield prio humble ≡ switched (after (thread_yield prio humble))
unfolding thread_set_priority rank yield_then yield_next age requeue thread_scheduler_pick_next
    taken thread_scheduler_enqueue
humble_yields = refl

thread_yield-IsHighest_example : IsHighest (after (thread_yield prio humble))
thread_yield-IsHighest_example =
    thread_yield-IsHighest humble (after (thread_yield prio humble)) humble-IsSound humble-IsOrdered
      humble_yields

start-IsInRange : IsInRange two_ready.threads
start-IsInRange t = ground arith

scheduler_calls-IsInRange_example :
    IsInRange (after (thread_yield prio two_ready)).threads
    × IsInRange (after (thread_yield_to prio (some 60) two_ready)).threads
    × IsInRange (after (thread_set_priority prio (some 60) (pos 500) two_ready)).threads
scheduler_calls-IsInRange_example =
    scheduler_calls-IsInRange prio (some 60) (pos 500) two_ready start-IsInRange

-- The signals 3 and 4 are pending for the program.
abbrev signalled : Machine
signalled = set_thread 0 (record (start.threads 0) { pending_signals = 12 }) start

signal-wait_example :
    (t u : Machine) × (thread_cond_wait prio (some 4) (some 4) two_ready ≡ switched t)
    × (t.current_thread ≡ 50)
    × (thread_cond_signal prio (some 4) t ≡ returned zero_rc u)
    × ((u.conds 4).waiting_queue ≡ [])
    × ((u.threads 0).state ≡ State.ready)
    × (elem 0 u.ready_queue ≡ true)
signal-wait_example = signal-wait prio 4 4 50 (60 ∷ []) two_ready two_ready-IsSound refl refl

-- A mutex that has been destroyed while two threads are ready.
abbrev wrecked : Machine
wrecked = set_mutex 4 (record { locked = negsuc 0; waiting_queue = [] }) two_ready

cond_wait-destroyed_example :
    (t u : Machine) × (thread_mutex_lock (some 4) wrecked
      ≡ returned minus_one (set_errno einval wrecked))
    × (thread_mutex_unlock fifo (some 4) wrecked ≡ returned minus_one (set_errno einval wrecked))
    × (thread_cond_wait fifo (some 4) (some 4) wrecked ≡ switched t)
    × (thread_mutex_lock (some 4) t ≡ returned zero_rc u)
cond_wait-destroyed_example = cond_wait-destroyed fifo 4 4 50 (60 ∷ []) wrecked refl refl refl
