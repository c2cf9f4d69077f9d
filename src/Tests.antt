-- ===== src/Tests.antt =====
-- Runs of the library on small programs: each property at a concrete input.
mod Runs
mod Calls
mod Memory
mod Contexts
mod Preempted
mod Locks
mod Joined
mod Ordered
mod Results
