-- ===== src/Tests/Ordered.antt =====
-- Calls of the scheduler under THREAD_SCHED_PRIO, with two ready threads.
use user_level_thread_librar.Base.{◌≡◌, refl, [], ◌∷◌, ◌++◌, pos}
use user_level_thread_librar.Machine.{prio, after}
use user_level_thread_librar.Scheduler.{thread_scheduler_enqueue}
use user_level_thread_librar.Scheduler.Order.{priority}
use user_level_thread_librar.Scheduler.Priority.{IsOrdered}
use user_level_thread_librar.Scheduler.Stable.{not_below, below, thread_scheduler_enqueue-stable}
use user_level_thread_librar.System.{yield, run_call, calls, Reach, here, next}
use user_level_thread_librar.System.Order.Reached.{Reach-IsOrdered}
use user_level_thread_librar.Tests.Runs.{two_ready, two_ready-IsSound}

-- The program yields, and the next thread goes on.
yielded : Reach prio two_ready (after (run_call prio yield two_ready))
yielded = next here (calls yield tt)

Reach-IsOrdered_example : IsOrdered (after (run_call prio yield two_ready))
Reach-IsOrdered_example = Reach-IsOrdered two_ready-IsSound refl yielded

thread_scheduler_enqueue-stable_example :
    (thread_scheduler_enqueue prio 70 two_ready).ready_queue
    ≡ not_below (priority two_ready.threads) (pos 0) (50 ∷ 60 ∷ [])
      ++ 70 ∷ below (priority two_ready.threads) (pos 0) (50 ∷ 60 ∷ [])
thread_scheduler_enqueue-stable_example = thread_scheduler_enqueue-stable 70 two_ready refl refl
