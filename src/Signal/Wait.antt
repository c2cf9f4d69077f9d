-- ===== src/Signal/Wait.antt =====
-- src/thread_sig.c: what `thread_sigwait` has taken when it returns 0.
use user_level_thread_librar.Machine.{Machine}
