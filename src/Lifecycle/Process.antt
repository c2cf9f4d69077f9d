-- ===== src/Lifecycle/Process.antt =====
-- The end of the process: the handlers that src/thread.c and src/thread_gc.c give to `atexit`, and
-- `thread_switch_to_cleanup` of src/thread_gc.c.
pub mod Unmapped
use user_level_thread_librar.Base.{List, [], ◌∷◌}
use user_level_thread_librar.Machine.{
  Machine, ExitHandler, final_cleanup_handler, pool_free_handler,
}
use user_level_thread_librar.Gc.{do_final_cleanup}
use user_level_thread_librar.Lifecycle.Objects.{thread_pool_free_all}

abbrev pub run_handler : ExitHandler → Machine → Machine
run_handler final_cleanup_handler s = do_final_cleanup s
run_handler pool_free_handler s = thread_pool_free_all s

unfoldable pub run_handlers : List ExitHandler → Machine → Machine
run_handlers [] s = s
run_handlers (h ∷ later) s = run_handlers later (run_handler h s)

-- `exit` runs the handlers, the latest first.
unfoldable pub exit_process : Machine → Machine
exit_process s = run_handlers s.exit_handlers s

-- The context of `do_final_cleanup` has no `uc_link`, so that the process exits after it.
unfoldable pub thread_switch_to_cleanup : Machine → Machine
thread_switch_to_cleanup s = exit_process (do_final_cleanup s)
