-- ===== src/Lifecycle/Create/Refinement.antt =====
-- src/thread.c: the last part of `thread_create`, in which the new thread appears, as a move of the
-- abstract scheduler.
use user_level_thread_librar.Base.{ℕ, ◌+◌, ◌≡◌, none, some, false, ◌==◌, if◌then◌else◌, arith}
use user_level_thread_librar.Machine.{
  Context, Policy, Machine, StackEntry, State, Creation, set_thread,
}
use user_level_thread_librar.Scheduler.{thread_scheduler_enqueue}
use user_level_thread_librar.Scheduler.Queue.{elem-enqueue, Distinct-enqueue}
use user_level_thread_librar.Abstract.{Channel, on_join, on_signal, Moves, done, more, spawns}
use user_level_thread_librar.Refinement.{view, waits_in, IsSound}
use user_level_thread_librar.Lifecycle.Create.{publish, new_thread}

-- `r` is `s` with a slot taken, and the structure filled in.
module _ (policy : Policy) (c : Creation) (e : StackEntry) (slot : ℕ) (s : Machine) (i : IsSound s)
    (unused : (s.threads c.newth).state ≡ State.terminated) where
  abbrev x : ℕ
  x = c.newth

  abbrev filled : Machine
  filled = set_thread x (new_thread c e (s.threads x)) s

  abbrev published : Machine
  published = publish policy c slot filled

  unqueued : (s.threads x).in_ready_queue ≡ false
  unqueued = ground (arith, unused, i.queued_ready x)

  silent : (s.threads x).waiting_for_signal ≡ false
  silent = ground (arith, unused, i.waiting (on_signal x) x)

  joined_by-published :
      (t : ℕ) → (published.threads t).joined_by ≡ (if t == x then none else (s.threads t).joined_by)
  unfolding publish thread_scheduler_enqueue
  joined_by-published t = ground arith

  state-published :
      (t : ℕ) → (published.threads t).state ≡ (if t == x then State.ready else (s.threads t).state)
  unfolding publish thread_scheduler_enqueue
  state-published t = ground arith

  signal-published :
      (t : ℕ)
      → (published.threads t).waiting_for_signal
        ≡ (if t == x then false else (s.threads t).waiting_for_signal)
  unfolding publish thread_scheduler_enqueue
  signal-published t = ground arith

  waits-published : (d : Channel) → waits_in published d ≡ waits_in s d
  unfolding publish thread_scheduler_enqueue
  waits-published (on_join t) = ground (arith, state-published t, joined_by-published t, unused)
  waits-published (on_signal t) = ground (arith, signal-published t, silent)
  waits-published d = ground arith

  before : Machine
  before =
      record (set_thread x
        (record (filled.threads x) {
          head_joiner = some slot;
          context = Context.entry;
          id = s.next_thread_id;
        })
        filled) { next_thread_id = s.next_thread_id + 1 }

  pub publish-Moves : Moves (view s) (view published)
  unfolding publish thread_scheduler_enqueue before
  publish-Moves = more done (
      spawns x (record {
        unused = unused;
        current = ground arith;
        ready_distinct =
            Distinct-enqueue policy x before (ground arith)
              (ground (arith, i.ready_queued x, unqueued)) i.ready_distinct;
        members = λ t. elem-enqueue policy x before (ground arith) t;
        queued = λ t. ground arith;
        state = state-published;
        channel = λ t. ground arith;
        waits = λ d t. rw (waits-published d);
        waits_distinct = λ d. rw (waits-published d) (i.waits_distinct d);
      }))
