-- ===== src/System/Locks.antt =====
-- The mutexes and the semaphores of the whole library: what every call, fault and resumption leaves
-- true of them, and of the threads that wait.
pub mod Kept
pub mod Blocked
pub mod Joined
pub mod Ended
pub mod Created
pub mod Apart
pub mod Calls
pub mod Waiters
use user_level_thread_librar.Base.{Bool, false, not, pos, eqb_ℤ}
use user_level_thread_librar.Machine.{Machine, is_terminated}
use user_level_thread_librar.Abstract.{Channel, on_mutex, on_sem, on_join}
use user_level_thread_librar.Mutex.Ownership.{IsGuarded}
use user_level_thread_librar.Sem.Balance.{IsBalanced}

abbrev pub IsCoherent : Machine → Type 0
IsCoherent s = IsGuarded s × IsBalanced s

-- What a thread waits for on this channel can be had: a mutex that is not held, a unit of a
-- semaphore, or the value of a thread that has ended.
abbrev pub is_available : Machine → Channel → Bool
is_available s (on_mutex m) = not (eqb_ℤ (s.mutexes m).locked (pos 1))
is_available s (on_sem m) = not (eqb_ℤ (s.sems m).count (pos 0))
is_available s (on_join t) = is_terminated (s.threads t).state
is_available s d = false
