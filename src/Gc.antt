-- ===== src/Gc.antt =====
-- src/thread_gc.c: the zombie queue and the final cleanup. A static `zombie_queue` that `zombie_init`
-- has not yet initialised has no first element: it is the empty list.
pub mod Cleanup
use user_level_thread_librar.Base.{
  ℕ, Option, none, some, true, false, List, [], ◌∷◌, ◌++◌, if◌then◌else◌, remove,
}
use user_level_thread_librar.Machine.{
  Machine, ExitHandler, final_cleanup_handler, Thread, set_thread,
}
use user_level_thread_librar.Pool.{stack_pool_free_all, entry_of}

unfoldable pub zombie_init : Machine → Machine
zombie_init s =
    if s.zombie_initialized then s else record s { zombie_queue = []; zombie_initialized = true }

unfoldable pub thread_zombie_add : ℕ → Machine → Machine
thread_zombie_add t s =
    let r = zombie_init s in
    record (set_thread t (record (r.threads t) { in_zombie_queue = true }) r) {
      zombie_queue = r.zombie_queue ++ t ∷ [];
    }

unfoldable pub thread_zombie_remove : ℕ → Machine → Machine
thread_zombie_remove t s =
    if (s.threads t).in_zombie_queue
    then record (set_thread t (record (s.threads t) { in_zombie_queue = false }) s) {
      zombie_queue = remove t s.zombie_queue;
    }
    else s

abbrev pub unmap_stack : Option ℕ → Thread → Machine → Machine
unmap_stack none th s = s
unmap_stack (some map) th s = record s { unmapped = entry_of map th ∷ s.unmapped }

-- The loop of `free_zombies`, along the queue that it empties.
unfoldable pub free_zombies_from : List ℕ → Machine → Machine
free_zombies_from [] s = s
free_zombies_from (t ∷ q) s =
    let r = unmap_stack (s.threads t).stack_map (s.threads t) (record s { zombie_queue = q }) in
    free_zombies_from q (record r { freed = t ∷ r.freed })

unfoldable pub free_zombies : Machine → Machine
free_zombies s = if s.zombie_initialized then free_zombies_from s.zombie_queue s else s

unfoldable pub do_final_cleanup : Machine → Machine
do_final_cleanup s = stack_pool_free_all (free_zombies s)

-- `cleanup_registered` is the static variable of the function.
unfoldable pub thread_cleanup_register : Machine → Machine
thread_cleanup_register s = if s.cleanup_registered then s else record s {
  exit_handlers = final_cleanup_handler ∷ s.exit_handlers;
  cleanup_registered = true;
}
