-- ===== src/Tests/Joined.antt =====
-- Joins of a thread that exits, and of one that another thread has just joined.
use user_level_thread_librar.Base.{
  ℕ, ◌≡◌, refl, none, some, true, [], ◌∷◌, arith, if◌then◌else◌, ◌==◌, ◌&&◌, elem, Distinct,
}
use user_level_thread_librar.Machine.{
  Machine, Thread, State, Context, fifo, switched, returned, zero_rc, after, is_blocked,
}
use user_level_thread_librar.Abstract.{Channel, same}
use user_level_thread_librar.Refinement.{IsSound, waits_in, channel_of}
use user_level_thread_librar.Scheduler.{
  thread_scheduler_pick_next, thread_scheduler_enqueue, revive, place, taken,
}
use user_level_thread_librar.Pool.{defer_stack_reclaim}
use user_level_thread_librar.Lifecycle.Exit.{thread_exit, leave, bury, terminate, restore}
use user_level_thread_librar.Lifecycle.Join.Waited.{resume-exit}
use user_level_thread_librar.System.{resume}
use user_level_thread_librar.System.Boot.{blank, main_struct}
use user_level_thread_librar.Tests.Runs.{start}

abbrev joiner : Thread
joiner = record main_struct {
  state = State.blocked;
  context = Context.in_join 50 (some 900);
  waiting_for = some 50;
}

abbrev joined : Thread
joined = record blank { state = State.running; joined_by = some 0 }

abbrev joining : Machine
joining = record start {
  threads = λ t. if t == 0 then joiner else if t == 50 then joined else blank;
  current_thread = 50;
}

joining-Distinct : (c : Channel) → Distinct (waits_in joining c)
joining-Distinct (Channel.on_join t) = ground arith
joining-Distinct (Channel.on_signal t) = ground arith
joining-Distinct d = tt

joining-waiting :
    (c : Channel) (t : ℕ)
    → elem t (waits_in joining c)
      ≡ (is_blocked (joining.threads t).state && same c (channel_of t (joining.threads t).context))
joining-waiting (Channel.on_mutex m) t = ground arith
joining-waiting (Channel.on_sem m) t = ground arith
joining-waiting (Channel.on_cond c) t = ground arith
joining-waiting (Channel.on_join k) t = ground arith
joining-waiting (Channel.on_signal k) t = ground arith
joining-waiting Channel.nowhere t = ground arith

joining-IsSound : IsSound joining
joining-IsSound = record {
  ready_distinct = tt;
  ready_queued = λ t. ground arith;
  queued_ready = λ t. ground arith;
  one_running = λ t. ground arith;
  waiting = joining-waiting;
  waits_distinct = joining-Distinct;
}

abbrev joiner_runs : Machine
joiner_runs = after (thread_exit fifo 7 joining)

exits : thread_exit fifo 7 joining ≡ switched joiner_runs
unfolding thread_exit leave bury terminate thread_scheduler_pick_next taken restore
    defer_stack_reclaim revive thread_scheduler_enqueue place
exits = refl

resume-exit_example :
    (w : Machine) × (resume fifo joiner_runs ≡ returned zero_rc w) × (w.memory 900 ≡ 7)
unfolding thread_exit leave bury terminate thread_scheduler_pick_next taken restore
    defer_stack_reclaim revive thread_scheduler_enqueue place
resume-exit_example =
    resume-exit fifo 7 900 0 joining joiner_runs joiner_runs joining-IsSound refl refl exits refl
      refl refl

-- Thread 60 has joined thread 50 while the main thread was about to.
abbrev waiter : Thread
waiter = record blank {
  state = State.blocked;
  context = Context.in_join 50 none;
  waiting_for = some 50;
  head_joiner = some 1000;
}

abbrev target : Thread
target = record blank {
  state = State.ready;
  in_ready_queue = true;
  joined_by = some 60;
  head_joiner = some 1000;
}

abbrev overtaken : Machine
overtaken = record start {
  threads = λ t.
      if t == 0
      then record main_struct { head_joiner = some 1001 }
      else if t == 50
      then target
      else if t == 60
      then waiter
      else blank;
  ready_queue = 50 ∷ [];
  head_refs = λ r. if r == 1000 then 60 else 0;
}
