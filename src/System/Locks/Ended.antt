-- ===== src/System/Locks/Ended.antt =====
-- What leaves every mutex and every semaphore as it is: the end of a thread.
use user_level_thread_librar.Base.{
  Bool, true, false, if◌then◌else◌, ℕ, refl, ◌∙◌, inl, inr, Option, none, some, List, [], ◌∷◌,
  Bool-cases, List-cases,
}
use user_level_thread_librar.Machine.{
  ExitHandler, final_cleanup_handler, pool_free_handler, Policy, Machine, Thread, after,
}
use user_level_thread_librar.Scheduler.Queue.{pick_next-cons, pick_next-nil}
use user_level_thread_librar.Pool.{stack_pool_free_all}
use user_level_thread_librar.Gc.{do_final_cleanup, free_zombies, free_zombies_from, unmap_stack}
use user_level_thread_librar.Lifecycle.Objects.{thread_pool_free_all}
use user_level_thread_librar.Lifecycle.Create.Rounds.{reclaimed}
use user_level_thread_librar.Lifecycle.Process.{
  run_handler, run_handlers, exit_process, thread_switch_to_cleanup,
}
use user_level_thread_librar.Lifecycle.Exit.{
  leave, terminate, bury, wake_joiner, restore, thread_exit, sigsegv_handler, in_guard_page,
}
use user_level_thread_librar.Lifecycle.Exit.Ended.{buried}
use user_level_thread_librar.Lifecycle.Exit.Overflow.{
  flagged, flagged-Unseen, handler_hit, handler_missed,
}
use user_level_thread_librar.System.Locks.Kept.{
  KeepsLocks, KeepsLocks-refl, KeepsLocks-trans, Unseen-KeepsLocks, set_thread-KeepsLocks,
  revive-KeepsLocks, taken-KeepsLocks,
}

free_zombies_from-KeepsLocks : (q : List ℕ) (s : Machine) → KeepsLocks s (free_zombies_from q s)
unfolding free_zombies_from
free_zombies_from-KeepsLocks [] s = KeepsLocks-refl s
free_zombies_from-KeepsLocks (t ∷ q) s =
    let a : Machine = record s { zombie_queue = q } in
    let r = unmap_stack (s.threads t).stack_map (s.threads t) a in
    let k = free_zombies_from-KeepsLocks q (record r { freed = t ∷ r.freed }) in
    let u = unmapped (s.threads t).stack_map (s.threads t) a in
    record { mutexes = k.mutexes ∙ u.mutexes; sems = k.sems ∙ u.sems }
  where
    unmapped : (m : Option ℕ) (th : Thread) (a : Machine) → KeepsLocks a (unmap_stack m th a)
    unmapped none th a = KeepsLocks-refl a
    unmapped (some m) th a = record { mutexes = refl; sems = refl }

free_zombies-KeepsLocks : (s : Machine) → KeepsLocks s (free_zombies s)
unfolding free_zombies
free_zombies-KeepsLocks s = go s.zombie_initialized
  where
    go : (b : Bool) → KeepsLocks s (if b then free_zombies_from s.zombie_queue s else s)
    go true = free_zombies_from-KeepsLocks s.zombie_queue s
    go false = KeepsLocks-refl s

run_handler-KeepsLocks : (h : ExitHandler) (s : Machine) → KeepsLocks s (run_handler h s)
unfolding do_final_cleanup stack_pool_free_all thread_pool_free_all
run_handler-KeepsLocks final_cleanup_handler s =
    let k = free_zombies-KeepsLocks s in record { mutexes = k.mutexes; sems = k.sems }
run_handler-KeepsLocks pool_free_handler s =
    let k = reclaimed s in record { mutexes = k.mutexes; sems = k.sems }

run_handlers-KeepsLocks : (l : List ExitHandler) (s : Machine) → KeepsLocks s (run_handlers l s)
unfolding run_handlers
run_handlers-KeepsLocks [] s = KeepsLocks-refl s
run_handlers-KeepsLocks (h ∷ l) s =
    KeepsLocks-trans (run_handler-KeepsLocks h s) (run_handlers-KeepsLocks l (run_handler h s))

cleanup-KeepsLocks : (s : Machine) → KeepsLocks s (thread_switch_to_cleanup s)
unfolding thread_switch_to_cleanup exit_process
cleanup-KeepsLocks s =
    KeepsLocks-trans (run_handler-KeepsLocks final_cleanup_handler s)
      (run_handlers-KeepsLocks (do_final_cleanup s).exit_handlers (do_final_cleanup s))

wake_joiner-KeepsLocks :
    (p : Policy) (joiner : Option ℕ) (s : Machine) → KeepsLocks s (wake_joiner p joiner s)
wake_joiner-KeepsLocks p none s = KeepsLocks-refl s
wake_joiner-KeepsLocks p (some joiner) s = revive-KeepsLocks p joiner s

leave-KeepsLocks : (p : Policy) (retval : ℕ) (s : Machine) → KeepsLocks s (leave p retval s)
unfolding leave terminate
leave-KeepsLocks p retval s =
    let dead = terminate retval s in
    let r = bury s.current_thread dead in
    KeepsLocks-trans (set_thread-KeepsLocks s.current_thread _ s) (
      KeepsLocks-trans (Unseen-KeepsLocks (buried s.current_thread dead))
        (wake_joiner-KeepsLocks p (r.threads s.current_thread).joined_by r))

pub thread_exit-KeepsLocks :
    (p : Policy) (retval : ℕ) (s : Machine) → KeepsLocks s (after (thread_exit p retval s))
unfolding thread_exit restore
thread_exit-KeepsLocks p retval s =
    let l = leave p retval s in
    let k = leave-KeepsLocks p retval s in
    elim (List-cases l.ready_queue) [
      | inl e ↦ rw (pick_next-nil l e, thread_exit) (KeepsLocks-trans k (cleanup-KeepsLocks l))
      | inr (next, q, e) ↦
          let t = KeepsLocks-trans k (taken-KeepsLocks next q l) in
          rw (pick_next-cons next q l e, thread_exit)
            (record { mutexes = t.mutexes; sems = t.sems })
    ]

pub sigsegv_handler-KeepsLocks :
    (p : Policy) (fault : ℕ) (s : Machine) → KeepsLocks s (after (sigsegv_handler p fault s))
sigsegv_handler-KeepsLocks p fault s =
    elim (Bool-cases (in_guard_page (s.threads s.current_thread).stack_map fault)) [
      | inl y ↦ rw (handler_hit p fault s y) (
          KeepsLocks-trans (Unseen-KeepsLocks (flagged-Unseen s))
            (thread_exit-KeepsLocks p 0 (flagged s)))
      | inr n ↦ rw (handler_missed p fault s n) (KeepsLocks-refl s)
    ]
