-- ===== src/System/Order.antt =====
-- The ready queue of the whole library under THREAD_SCHED_PRIO.
pub mod Kept
pub mod Calls
pub mod Blocked
pub mod Joined
pub mod Created
pub mod Reached
