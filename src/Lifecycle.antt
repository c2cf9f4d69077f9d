-- ===== src/Lifecycle.antt =====
-- src/thread.c: creation, end and join of threads.
pub mod Handlers
pub mod Objects
pub mod Create
pub mod Process
pub mod Exit
pub mod Join
