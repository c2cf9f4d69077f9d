-- ===== src/Tests/Runs.antt =====
-- A program that creates a thread and yields to it, and a state with two ready threads.
use user_level_thread_librar.Base.{
  ℕ, ◌≡◌, refl, inl, Option, some, List, [], ◌∷◌, pos, arith, true, if◌then◌else◌, ◌==◌,
}
use user_level_thread_librar.Machine.{Machine, Thread, State, fifo, returned, after, swap_thread}
use user_level_thread_librar.Abstract.{Channel, Moves}
use user_level_thread_librar.Refinement.{view, waits_in, IsSound}
use user_level_thread_librar.Scheduler.{
  thread_scheduler_enqueue, place, thread_scheduler_pick_next, taken, yield_next, yield_then, age,
  requeue,
}
use user_level_thread_librar.Pool.{stack_pool_alloc, stack_pool_empty}
use user_level_thread_librar.Gc.{thread_cleanup_register}
use user_level_thread_librar.Lifecycle.Objects.{thread_alloc, thread_head_ref_alloc}
use user_level_thread_librar.Lifecycle.Create.{
  publish, create_finish, create_round, create_resumed, initialize, register_handlers,
  thread_create,
}
use user_level_thread_librar.System.{
  create, yield, run_call, calls, resumes, Reach, here, next, IsOrderly, ResumesOrderly, resume,
}
use user_level_thread_librar.System.Boot.{blank, boot, boot-IsSound}
use user_level_thread_librar.System.Safety.{Step-Moves, Reach-IsSound}

-- A chunk of slots, the array of chunks, a structure and a stack.
abbrev pub given : List (Option ℕ)
given = some 1000 ∷ some 3000 ∷ some 50 ∷ some 8192 ∷ []

abbrev pub start : Machine
start = boot given

abbrev pub one_ready : Machine
one_ready = after (run_call fifo (create (some 500) (some 7) 9) start)

creates : thread_create fifo (some 500) (some 7) 9 start ≡ returned (pos 0) one_ready
unfolding run_call thread_create create_resumed create_round create_finish publish initialize
    register_handlers thread_cleanup_register thread_head_ref_alloc thread_alloc stack_pool_alloc
    thread_scheduler_enqueue stack_pool_empty place
creates = refl

pub creates-IsOrderly : IsOrderly fifo (create (some 500) (some 7) 9) start
unfolding initialize register_handlers thread_cleanup_register thread_head_ref_alloc thread_alloc
creates-IsOrderly = ((λ x e. ground (arith, e)), (one_ready, inl creates))

one_ready_queue : one_ready.ready_queue ≡ 50 ∷ []
unfolding run_call thread_create create_resumed create_round create_finish publish initialize
    register_handlers thread_cleanup_register thread_head_ref_alloc thread_alloc stack_pool_alloc
    thread_scheduler_enqueue stack_pool_empty place
one_ready_queue = refl

Step-Moves_example :
    Moves (view start) (view (after (run_call fifo (create (some 500) (some 7) 9) start)))
Step-Moves_example =
    Step-Moves (boot-IsSound given) (calls (create (some 500) (some 7) 9) creates-IsOrderly)

pub one_ready-IsSound : IsSound one_ready
one_ready-IsSound =
    Reach-IsSound (boot-IsSound given)
      (next here (calls (create (some 500) (some 7) 9) creates-IsOrderly))

-- Two threads that are ready.
abbrev waiting_thread : Thread
waiting_thread = record blank { state = State.ready; in_ready_queue = true }

abbrev pub two_ready : Machine
two_ready = record start {
  threads =
      λ t. if t == 50 then waiting_thread else if t == 60 then waiting_thread else start.threads t;
  ready_queue = 50 ∷ 60 ∷ [];
}

two_ready_empty : (d : Channel) → waits_in two_ready d ≡ []
two_ready_empty (Channel.on_join t) = ground arith
two_ready_empty (Channel.on_signal t) = ground arith
two_ready_empty d = ground arith

pub two_ready-IsSound : IsSound two_ready
two_ready-IsSound = record {
  ready_distinct = (refl, (refl, tt));
  ready_queued = λ t. ground arith;
  queued_ready = λ t. ground arith;
  one_running = λ t. ground arith;
  waiting = λ c t. rw (two_ready_empty c) (ground arith);
  waits_distinct = λ c. rw (two_ready_empty c) tt;
}

-- The program yields to the thread, the thread begins, and it yields back.
abbrev thread_runs : Machine
thread_runs = after (run_call fifo yield one_ready)

abbrev begun : Machine
begun = after (resume fifo thread_runs)

begins_orderly :
    ResumesOrderly fifo (thread_runs.threads thread_runs.current_thread).context thread_runs
unfolding run_call thread_create create_resumed create_round create_finish publish initialize
    register_handlers thread_cleanup_register thread_head_ref_alloc thread_alloc stack_pool_alloc
    thread_scheduler_enqueue stack_pool_empty place yield_then yield_next age requeue
    thread_scheduler_pick_next taken swap_thread
begins_orderly = tt

two_threads : Reach fifo start (after (run_call fifo yield begun))
two_threads =
    next
      (next
        (next (next here (calls (create (some 500) (some 7) 9) creates-IsOrderly)) (calls yield tt))
        (resumes begins_orderly))
      (calls yield tt)

Reach-IsSound_example : IsSound (after (run_call fifo yield begun))
Reach-IsSound_example = Reach-IsSound (boot-IsSound given) two_threads
