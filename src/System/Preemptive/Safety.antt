-- ===== src/System/Preemptive/Safety.antt =====
-- A preempted process against the library without preemption.
use user_level_thread_librar.Machine.{Machine}
use user_level_thread_librar.System
