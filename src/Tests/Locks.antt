-- ===== src/Tests/Locks.antt =====
-- A thread that asks for a mutex which is held, while another thread is ready.
use user_level_thread_librar.Base.{◌≡◌, refl, some, false, [], pos, arith, if◌then◌else◌, ◌==◌}
use user_level_thread_librar.Machine.{Machine, fifo, after, swap_thread}
use user_level_thread_librar.Abstract.{Channel}
use user_level_thread_librar.Refinement.{IsSound, waits_in, channel_of}
use user_level_thread_librar.Scheduler.{thread_scheduler_pick_next, taken}
use user_level_thread_librar.Mutex.{
  thread_mutex_lock, lock, lock_held, park_on_mutex, queue_on_mutex,
}
use user_level_thread_librar.System.{mutex_lock, run_call, calls, Reach, here, next}
use user_level_thread_librar.System.Locks.{IsCoherent, is_available}
use user_level_thread_librar.System.Locks.Waiters.{Reach-unavailable}
use user_level_thread_librar.Tests.Runs.{two_ready}

abbrev one_held : Machine
one_held = record two_ready {
  mutexes =
      λ m. if m == 3 then record { locked = pos 1; waiting_queue = [] } else two_ready.mutexes m;
}

one_held-IsCoherent : IsCoherent one_held
one_held-IsCoherent = (λ m. ground arith, λ m. ground arith)

one_held_empty : (d : Channel) → waits_in one_held d ≡ []
one_held_empty (Channel.on_mutex m) = ground arith
one_held_empty (Channel.on_join t) = ground arith
one_held_empty (Channel.on_signal t) = ground arith
one_held_empty d = ground arith

one_held-IsSound : IsSound one_held
one_held-IsSound = record {
  ready_distinct = (refl, (refl, tt));
  ready_queued = λ t. ground arith;
  queued_ready = λ t. ground arith;
  one_running = λ t. ground arith;
  waiting = λ c t. rw (one_held_empty c) (ground arith);
  waits_distinct = λ c. rw (one_held_empty c) tt;
}

abbrev asked : Machine
asked = after (run_call fifo (mutex_lock (some 3)) one_held)

asks : Reach fifo one_held asked
asks = next here (calls (mutex_lock (some 3)) tt)

Reach-unavailable_example : is_available asked (channel_of 0 (asked.threads 0).context) ≡ false
unfolding run_call thread_mutex_lock lock lock_held park_on_mutex queue_on_mutex
    thread_scheduler_pick_next taken swap_thread
Reach-unavailable_example = Reach-unavailable 0 one_held-IsSound one_held-IsCoherent asks refl
