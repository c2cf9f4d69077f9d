-- ===== src/Tests/Memory.antt =====
-- Stacks, thread structures, and the end of threads.
use user_level_thread_librar.Base.{
  ℕ, ◌+◌, ◌≡◌, refl, some, true, ◌||◌, [], ◌∷◌, arith, elem, length, ◌≤◌, ◌++◌, SameItems,
}
use user_level_thread_librar.Machine.{
  Creation, Machine, fifo, State, returned, switched, zero_rc, set_thread,
}
use user_level_thread_librar.Pool.{
  stack_pool_alloc, stack_pool_push, reclaim_deferred_stacks_all, max_pooled_stacks,
}
use user_level_thread_librar.Pool.Conservation.{
  alloc-push, idle_stacks, reclaim_deferred_stacks_all-keeps,
}
use user_level_thread_librar.Gc.{do_final_cleanup}
use user_level_thread_librar.Gc.Cleanup.{stacks_of, do_final_cleanup-frees_all}
use user_level_thread_librar.Lifecycle.Join.{thread_join}
use mathlib.Core.WellFounded.{Acc}
use user_level_thread_librar.Lifecycle.Create.{create_resumed}
use user_level_thread_librar.Lifecycle.Create.Retries.{
  WaitsAgain, WaitsBetween, create_resumed-terminates,
}
use user_level_thread_librar.Lifecycle.Exit.{thread_exit}
use user_level_thread_librar.Gc.{thread_cleanup_register}
use user_level_thread_librar.Lifecycle.Create.{register_handlers}
use user_level_thread_librar.Lifecycle.Process.{exit_process, thread_switch_to_cleanup}
use user_level_thread_librar.Lifecycle.Process.Unmapped.{
  Emptied, ends-Emptied, again-IsRegistered, register_handlers-IsRegistered,
}
use user_level_thread_librar.Lifecycle.Join.Exited.{join-exit}
use user_level_thread_librar.Tests.Runs.{start, two_ready, two_ready-IsSound}

-- Two stacks wait to be reclaimed.
abbrev deferred : Machine
deferred = record start {
  deferred_stacks =
      record { map = 8192; stack = 12288; valgrind_id = 0 }
      ∷ record { map = 65536; stack = 69632; valgrind_id = 0 }
      ∷ [];
}

reclaim_deferred_stacks_all-keeps_example :
    ((reclaim_deferred_stacks_all deferred).deferred_stacks ≡ [])
    × SameItems (idle_stacks (reclaim_deferred_stacks_all deferred)) (idle_stacks deferred)
    × (length (reclaim_deferred_stacks_all deferred).stack_pool ≤ max_pooled_stacks)
reclaim_deferred_stacks_all-keeps_example =
    reclaim_deferred_stacks_all-keeps deferred (omega arith) (omega arith)

-- Two threads that nobody has joined.
abbrev unjoined : Machine
unjoined = record deferred {
  zombie_queue = 50 ∷ 60 ∷ [];
  zombie_initialized = true;
  stack_pool = deferred.deferred_stacks;
}

do_final_cleanup-frees_all_example :
    let t = do_final_cleanup unjoined in
    (t.zombie_queue ≡ [])
    × (t.stack_pool ≡ [])
    × ((x : ℕ) → elem x t.freed ≡ (elem x unjoined.freed || elem x unjoined.zombie_queue))
    × (length t.freed ≡ length unjoined.zombie_queue + length unjoined.freed)
    × SameItems t.unmapped
        (unjoined.stack_pool
          ++ (stacks_of unjoined.threads unjoined.zombie_queue ++ unjoined.unmapped))
    × ((do_final_cleanup t).freed ≡ t.freed)
    × ((do_final_cleanup t).unmapped ≡ t.unmapped)
do_final_cleanup-frees_all_example = do_final_cleanup-frees_all unjoined refl

-- A live thread and the program, each with a slot of its own, and nobody ready.
abbrev alone : Machine
alone =
    set_thread 0 (record (start.threads 0) { head_joiner = some 1000 })
      (set_thread 50 (record (start.threads 50) { head_joiner = some 1001; state = State.blocked })
        start)

-- A thread that has ended by an overflow of its stack.
abbrev overflowed : Machine
overflowed = set_thread 50 (record (start.threads 50) { stack_overflow = true }) start

join-exit_example :
    (t u : Machine) × (thread_exit fifo 77 two_ready ≡ switched t)
    × (t.current_thread ≡ 50)
    × (thread_join (some 0) (some 900) t ≡ returned zero_rc u)
    × (u.memory 900 ≡ 77)
join-exit_example = join-exit fifo 77 900 50 (60 ∷ []) two_ready two_ready-IsSound refl refl

alloc-push_example :
    let r =
      stack_pool_alloc (stack_pool_push (record { map = 1; stack = 2; valgrind_id = 0 }) start) in
    (r.0 ≡ some (record { map = 1; stack = 2; valgrind_id = 0 }))
    × (r.1.stack_pool ≡ start.stack_pool)
    × (r.1.replies ≡ start.replies)
alloc-push_example = alloc-push (record { map = 1; stack = 2; valgrind_id = 0 }) start (omega arith)

-- The first call has been made twice, the first time without memory.
abbrev ending : Machine
ending = register_handlers (register_handlers unjoined)

ends-Emptied_example :
    Emptied ending (exit_process ending) × Emptied ending (thread_switch_to_cleanup ending)
unfolding register_handlers thread_cleanup_register
ends-Emptied_example =
    ends-Emptied 1 ending
      (again-IsRegistered 1 (register_handlers unjoined)
        (register_handlers-IsRegistered unjoined refl refl))
      (record { deferred = omega arith; pooled = omega arith; zombies = refl })

-- A creation that has waited for a stack three times.
abbrev waiting_creation : Creation
waiting_creation = record { newthread = 500; func = 7; funcarg = 9; newth = 50; alloc_retries = 3 }

create_resumed-terminates_example :
    Acc (WaitsAgain fifo) waiting_creation
    × ((s : Machine)
        → WaitsBetween 3 4096 s.current_thread (create_resumed fifo waiting_creation s))
create_resumed-terminates_example = create_resumed-terminates fifo waiting_creation
