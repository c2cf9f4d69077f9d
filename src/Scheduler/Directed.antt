-- ===== src/Scheduler/Directed.antt =====
-- src/scheduler.c: `thread_yield_to` as moves of the abstract scheduler.
use user_level_thread_librar.Base.{
  ℕ, ◌≡◌, refl, Option, none, some, true, false, ◌||◌, ◌==◌, inl, inr, if◌then◌else◌, arith, elem,
  Distinct, remove, elem-remove, Distinct-remove, Bool-cases,
}
use user_level_thread_librar.Machine.{
  Policy, Machine, ready, running, in_yield, after, set_thread, swap_thread, is_ready,
}
use user_level_thread_librar.Scheduler.{
  thread_scheduler_enqueue, revive, switch_to, thread_yield_to,
}
use user_level_thread_librar.Scheduler.Queue.{elem-revive, Distinct-revive}
use user_level_thread_librar.Scheduler.Refinement.{yield_then-Moves}
use user_level_thread_librar.Abstract.{Channel, Moves, done, more, switches, yields}
use user_level_thread_librar.Refinement.{view, waits_in, IsSound}
use user_level_thread_librar.Refinement.Swap.{Left, swap-Switch}

-- The switch to a chosen ready thread.
module _ (policy : Policy) (target : ℕ) (s : Machine) (i : IsSound s)
    (is_target : (s.threads target).state ≡ ready) where
  abbrev cur : ℕ
  cur = s.current_thread

  abbrev behind : Machine
  behind = revive policy cur s

  -- The state before the swap.
  abbrev chosen : Machine
  chosen =
      set_thread target (record (behind.threads target) { in_ready_queue = false })
        (record behind { ready_queue = remove target behind.ready_queue })

  target_queued : (s.threads target).in_ready_queue ≡ true
  target_queued = ground (arith, i.queued_ready target, is_target)

  cur_running : (s.threads cur).state ≡ running
  cur_running = ground (arith, i.one_running cur)

  cur_unqueued : (s.threads cur).in_ready_queue ≡ false
  cur_unqueued = ground (arith, i.queued_ready cur, cur_running)

  apart : (target == cur) ≡ false
  apart = ground (arith, is_target, cur_running)

  elem-behind : (t : ℕ) → elem t behind.ready_queue ≡ (elem t s.ready_queue || t == cur)
  elem-behind = elem-revive policy cur s cur_unqueued

  Distinct-behind : Distinct behind.ready_queue
  Distinct-behind =
      Distinct-revive policy cur s cur_unqueued (ground (arith, i.ready_queued cur, cur_unqueued))
        i.ready_distinct

  waits-chosen : (d : Channel) → waits_in chosen d ≡ waits_in s d
  unfolding revive thread_scheduler_enqueue
  waits-chosen (Channel.on_join t) = ground (arith, cur_running, cur_unqueued, apart)
  waits-chosen (Channel.on_signal t) = ground (arith, cur_unqueued, apart)
  waits-chosen d = ground (arith, cur_unqueued, apart)

  state-chosen :
      (t : ℕ) → (chosen.threads t).state ≡ (if t == cur then ready else (s.threads t).state)
  unfolding revive thread_scheduler_enqueue
  state-chosen t = ground (arith, cur_unqueued, apart)

  queued-chosen :
      (t : ℕ)
      → (chosen.threads t).in_ready_queue
        ≡ (if t == target then false else if t == cur then true else (s.threads t).in_ready_queue)
  unfolding revive thread_scheduler_enqueue
  queued-chosen t = ground (arith, cur_unqueued, apart)

  context-chosen : (t : ℕ) → (chosen.threads t).context ≡ (s.threads t).context
  unfolding revive thread_scheduler_enqueue
  context-chosen t = ground (arith, cur_unqueued, apart)

  chosen-Left : Left yields target s chosen
  chosen-Left = record {
    chosen = ground (arith, i.ready_queued target, target_queued);
    ready_distinct = Distinct-remove target behind.ready_queue Distinct-behind;
    members = λ t.
        ground
          (arith, elem-remove t target behind.ready_queue Distinct-behind, elem-behind t, apart);
    queued = queued-chosen;
    state = state-chosen;
    context = context-chosen;
    waits = λ d t. rw (waits-chosen d) (ground arith);
    waits_distinct = λ d. rw (waits-chosen d) (i.waits_distinct d);
  }

  switch_to-chosen : switch_to policy target s ≡ swap_thread cur target in_yield chosen
  unfolding switch_to revive
  switch_to-chosen = refl

  pub switch_to-Moves : Moves (view s) (view (switch_to policy target s))
  switch_to-Moves =
      rw switch_to-chosen (more done (switches yields (swap-Switch in_yield i chosen-Left refl)))

pub thread_yield_to-Moves :
    (policy : Policy) (target : Option ℕ) (s : Machine)
    → IsSound s
    → Moves (view s) (view (after (thread_yield_to policy target s)))
unfolding thread_yield_to
thread_yield_to-Moves policy none s i = done
thread_yield_to-Moves policy (some target) s i =
    elim (Bool-cases (is_ready (s.threads target).state)) [
      | inl r ↦ rw (r, thread_yield_to) (switch_to-Moves policy target s i (ground arith))
      | inr n ↦ rw (n, thread_yield_to) (yield_then-Moves policy in_yield s i (λ t. refl))
    ]
