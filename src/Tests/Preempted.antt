-- ===== src/Tests/Preempted.antt =====
-- A process that is interrupted, and one whose threads overflow their stacks.
use user_level_thread_librar.Base.{
  ℕ, ◌≡◌, refl, none, some, true, false, if◌then◌else◌, ◌==◌, [], ◌∷◌,
}
use user_level_thread_librar.Machine.{Thread, State, fifo, Machine, switched, after}
use user_level_thread_librar.Preemption.{
  Signals, sigvtalrm, no_signals, preem_unblock, preem_mask_init, init_prem,
  init_stack_overflow_detection,
}
use user_level_thread_librar.Preemption.Masks.{blocks, preem_unblock-blocks, init_prem-IsArmed}
use user_level_thread_librar.Lifecycle.Exit.{
  sigsegv_handler, thread_exit, leave, bury, terminate, restore,
}
use user_level_thread_librar.Pool.{defer_stack_reclaim}
use user_level_thread_librar.Gc.{thread_zombie_add, zombie_init}
use user_level_thread_librar.System.Boot.{blank}
use user_level_thread_librar.Scheduler.{thread_scheduler_pick_next, taken}
use user_level_thread_librar.System.Preemptive.{
  Process, in_program, over, after_fault, after_interrupt, after_resume,
}
use user_level_thread_librar.System.Preemptive.Faults.{after_fault-after_fault}
use user_level_thread_librar.Tests.Runs.{two_ready}

abbrev no_handlers : Signals
no_handlers = record {
  mask = no_signals;
  sigvtalrm_mask = no_signals;
  actions = λ n. none;
  timer = none;
  altstack = none;
  overflow_detection_initialized = false;
}

abbrev handlers : Signals
handlers = init_prem 1 100 no_handlers

abbrev armed : Signals
armed = init_stack_overflow_detection true handlers

abbrev process : Process
process = record {
  machine = two_ready;
  signals = handlers;
  phase = in_program;
  saved_masks = λ t. none;
}

preem_unblock-blocks_example :
    ((preem_unblock (blocks 2 handlers)).mask sigvtalrm ≡ false)
    × ((k : ℕ)
        → (k == sigvtalrm) ≡ false
        → (preem_unblock (blocks 2 handlers)).mask k ≡ handlers.mask k)
preem_unblock-blocks_example = preem_unblock-blocks 2 handlers (init_prem-IsArmed 1 100 no_handlers)

-- The timer interrupts the program, and the next thread goes on.
abbrev interrupted_once : Process
interrupted_once = after_interrupt fifo process

-- A thread with a stack at 8192, which hits the guard page, and one with a stack at 99_000.
abbrev running_thread : Thread
running_thread = record blank { state = State.running; stack_map = some 8192; stack_base = 8192 }

abbrev ready_thread : Thread
ready_thread = record blank {
  state = State.ready;
  in_ready_queue = true;
  stack_map = some 99000;
  stack_base = 99000;
}

abbrev overflowing : Process
overflowing = record process {
  machine = record two_ready {
    threads = λ t. if t == 50 then running_thread else if t == 60 then ready_thread else blank;
    current_thread = 50;
    ready_queue = 60 ∷ [];
  };
  signals = armed;
}

abbrev second_runs : Machine
second_runs = after (sigsegv_handler fifo 8200 overflowing.machine)

overflows : sigsegv_handler fifo 8200 overflowing.machine ≡ switched second_runs
unfolding sigsegv_handler thread_exit leave bury terminate thread_scheduler_pick_next taken restore
    defer_stack_reclaim thread_zombie_add zombie_init
overflows = refl

after_fault-after_fault_example :
    let y = after_resume fifo (after_fault fifo 8200 overflowing) in
    after_fault fifo 99008 y ≡ record y { phase = over }
unfolding init_prem preem_mask_init init_stack_overflow_detection sigsegv_handler thread_exit leave
    bury terminate thread_scheduler_pick_next taken restore defer_stack_reclaim thread_zombie_add
    zombie_init
after_fault-after_fault_example =
    after_fault-after_fault fifo 8200 99008 second_runs overflowing
      (init_prem-IsArmed 1 100 no_handlers) refl refl overflows refl
