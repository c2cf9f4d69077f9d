-- ===== src/Cond/Handover.antt =====
-- src/thread_cond.c: `thread_cond_wait` when a thread waits for the mutex that it releases.
use user_level_thread_librar.Base.{
  ℕ, ◌≡◌, refl, subst, false, ◌||◌, List, [], ◌∷◌, ◌++◌, ◌==◌, if◌then◌else◌, arith, elem, Distinct,
}
use user_level_thread_librar.Machine.{Policy, Machine, State, ready, in_cond_wait, swap_thread}
use user_level_thread_librar.Scheduler.{thread_scheduler_enqueue, revive, taken}
use user_level_thread_librar.Scheduler.Queue.{elem-revive, Distinct-revive}
use user_level_thread_librar.Abstract.{
  Channel, same, on_cond, on_join, on_mutex, on_signal, Switch, Moves, more, switches, parks,
}
use user_level_thread_librar.Abstract.Preservation.{Moves-Inv}
use user_level_thread_librar.Refinement.{view, waits_in, IsSound}
use user_level_thread_librar.Refinement.Park.{current_not_waiting}
use user_level_thread_librar.Refinement.Swap.{Left, swap-Switch}
use user_level_thread_librar.Refinement.Queues.{snoc_waits, snoc-Distinct}
use user_level_thread_librar.Mutex.{set_mutex, hand_over}
use user_level_thread_librar.Mutex.Refinement.{hand_over-Moves}
use user_level_thread_librar.Cond.{queue_on_cond, park_on_cond}

-- A waiter of the mutex is woken although `next` has left the ready queue: the same as waking it
-- first and then switching to `next`.
module _ (policy : Policy) (c m x next : ℕ) (q ws : List ℕ) (s : Machine) (i : IsSound s)
    (picked : s.ready_queue ≡ next ∷ q) (first : (s.mutexes m).waiting_queue ≡ x ∷ ws) where
  abbrev woken : Machine
  woken = hand_over policy m (x ∷ ws) s

  abbrev leaving : Machine
  leaving = queue_on_cond c s.current_thread (hand_over policy m (x ∷ ws) (taken next q s))

  x_blocked : (s.threads x).state ≡ State.blocked
  x_blocked = ground (arith, i.waiting (on_mutex m) x, first)

  next_ready : (s.threads next).state ≡ ready
  next_ready = ground (arith, i.ready_queued next, i.queued_ready next, picked)

  cur_running : (s.threads s.current_thread).state ≡ State.running
  cur_running = ground (arith, i.one_running s.current_thread)

  x_unqueued : (s.threads x).in_ready_queue ≡ false
  x_unqueued = ground (arith, i.queued_ready x, x_blocked)

  cur_unqueued : (s.threads s.current_thread).in_ready_queue ≡ false
  cur_unqueued = ground (arith, i.queued_ready s.current_thread, cur_running)

  apart :
      ((x == next) ≡ false)
      × ((x == s.current_thread) ≡ false)
      × ((next == s.current_thread) ≡ false)
  apart = ground (arith, x_blocked, next_ready, cur_running)

  split : Distinct (next ∷ q)
  split = subst (λ l. Distinct l) picked i.ready_distinct

  woken-IsSound : IsSound woken
  woken-IsSound = Moves-Inv (hand_over-Moves policy m (x ∷ ws) s i first) i

  current-woken : woken.current_thread ≡ s.current_thread
  unfolding revive thread_scheduler_enqueue
  current-woken = ground (arith, x_unqueued)

  x_out : elem x q ≡ false
  x_out = ground (arith, i.ready_queued x, x_unqueued, picked)

  cur_out : elem s.current_thread q ≡ false
  cur_out = ground (arith, i.ready_queued s.current_thread, cur_unqueued, picked)

  abbrev waiters : ℕ → List ℕ → Machine → Machine
  waiters k l r = set_mutex k (record (r.mutexes k) { waiting_queue = l }) r

  elem-woken : (t : ℕ) → elem t woken.ready_queue ≡ (elem t s.ready_queue || t == x)
  elem-woken = elem-revive policy x (waiters m ws s) x_unqueued

  x-taken : ((taken next q s).threads x).in_ready_queue ≡ false
  unfolding taken
  x-taken = ground (arith, x_unqueued)

  elem-leaving : (t : ℕ) → elem t leaving.ready_queue ≡ (elem t q || t == x)
  unfolding taken queue_on_cond
  elem-leaving = elem-revive policy x (waiters m ws (taken next q s)) x-taken

  Distinct-leaving : Distinct leaving.ready_queue
  unfolding taken queue_on_cond
  Distinct-leaving = Distinct-revive policy x (waiters m ws (taken next q s)) x-taken x_out split.1

  state-leaving :
      (t : ℕ)
      → (leaving.threads t).state
        ≡ (if t == s.current_thread then State.blocked else (woken.threads t).state)
  unfolding revive thread_scheduler_enqueue queue_on_cond taken
  state-leaving t = ground (arith, apart, x_unqueued)

  joined_by-leaving : (t : ℕ) → (leaving.threads t).joined_by ≡ (woken.threads t).joined_by
  unfolding revive thread_scheduler_enqueue queue_on_cond taken
  joined_by-leaving t = ground (arith, apart, x_unqueued)

  signal-leaving :
      (t : ℕ) → (leaving.threads t).waiting_for_signal ≡ (woken.threads t).waiting_for_signal
  unfolding revive thread_scheduler_enqueue queue_on_cond taken
  signal-leaving t = ground (arith, apart, x_unqueued)

  cur_woken : (woken.threads s.current_thread).state ≡ State.running
  cur_woken = ground (arith, woken-IsSound.one_running s.current_thread, current-woken)

  waits-leaving_cond :
      (k : ℕ)
      → (leaving.conds k).waiting_queue ≡ (
          if k == c
          then (woken.conds c).waiting_queue ++ s.current_thread ∷ []
          else (woken.conds k).waiting_queue)
  unfolding revive thread_scheduler_enqueue queue_on_cond taken
  waits-leaving_cond k = ground (arith, x_unqueued)

  mutexes-leaving : (k : ℕ) → leaving.mutexes k ≡ woken.mutexes k
  unfolding revive thread_scheduler_enqueue queue_on_cond taken
  mutexes-leaving k = ground (arith, x_unqueued)

  sems-leaving : (k : ℕ) → leaving.sems k ≡ woken.sems k
  unfolding revive thread_scheduler_enqueue queue_on_cond taken
  sems-leaving k = ground (arith, x_unqueued)

  waits-leaving :
      (d : Channel)
      → waits_in leaving d ≡ (
          if same d (on_cond c)
          then waits_in woken (on_cond c) ++ s.current_thread ∷ []
          else waits_in woken d)
  waits-leaving (on_join t) = ground (arith, state-leaving t, joined_by-leaving t, cur_woken)
  waits-leaving (on_signal t) = ground (arith, signal-leaving t)
  waits-leaving (on_mutex k) = ground (arith, mutexes-leaving k)
  waits-leaving (Channel.on_sem k) = ground (arith, sems-leaving k)
  waits-leaving (on_cond k) = waits-leaving_cond k
  waits-leaving Channel.nowhere = refl

  queued-leaving :
      (t : ℕ)
      → (leaving.threads t).in_ready_queue ≡ (
          if t == next
          then false
          else if t == woken.current_thread
          then false
          else (woken.threads t).in_ready_queue)
  unfolding revive thread_scheduler_enqueue queue_on_cond taken
  queued-leaving t = ground (arith, apart, x_unqueued, cur_unqueued)

  context-leaving : (t : ℕ) → (leaving.threads t).context ≡ (woken.threads t).context
  unfolding revive thread_scheduler_enqueue queue_on_cond taken
  context-leaving t = ground (arith, apart, x_unqueued)

  cur_new : elem s.current_thread (waits_in woken (on_cond c)) ≡ false
  cur_new = ground (arith, current-woken, current_not_waiting woken (on_cond c) woken-IsSound)

  leaving-Left : Left (parks (on_cond c)) next woken leaving
  leaving-Left = record {
    chosen = ground (arith, elem-woken next, picked);
    ready_distinct = Distinct-leaving;
    members = λ t.
        ground
          (arith, elem-leaving t, elem-woken t, current-woken, picked, split.0, cur_out, apart);
    queued = queued-leaving;
    state = λ t. rw current-woken (state-leaving t);
    context = context-leaving;
    waits = λ d t. rw current-woken (
        snoc_waits (on_cond c) s.current_thread woken leaving woken-IsSound cur_new waits-leaving d
          t);
    waits_distinct =
        snoc-Distinct (on_cond c) s.current_thread woken leaving woken-IsSound cur_new
          waits-leaving;
  }

  pub wake_and_park-Moves :
      Moves (view s) (
        view
          (park_on_cond c m s.current_thread next (hand_over policy m (x ∷ ws) (taken next q s))))
  unfolding park_on_cond
  wake_and_park-Moves = more (hand_over-Moves policy m (x ∷ ws) s i first) (
      switches (parks (on_cond c)) (
        subst
          (λ prev.
            Switch (parks (on_cond c)) (view woken)
              (view (swap_thread prev next (in_cond_wait c m) leaving)))
          current-woken (swap-Switch (in_cond_wait c m) woken-IsSound leaving-Left refl)))
