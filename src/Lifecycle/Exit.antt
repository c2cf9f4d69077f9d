-- ===== src/Lifecycle/Exit.antt =====
-- src/thread.c: `thread_exit`; src/preemption.c: the SIGSEGV handler, which ends a thread whose
-- stack overflows.
pub mod Ended
pub mod Overflow
pub mod Refinement
use user_level_thread_librar.Base.{
  ℕ, ◌+◌, Option, none, some, Bool, true, false, not, ◌&&◌, List, leb, ltb, ◌==◌, if◌then◌else◌,
}
use user_level_thread_librar.Machine.{
  Policy, Machine, Thread, State, is_blocked, main_thread, Outcome, switched, cleaned, killed,
  set_thread,
}
use user_level_thread_librar.Scheduler.{thread_scheduler_pick_next, revive}
use user_level_thread_librar.Pool.{defer_stack_reclaim, guard_size}
use user_level_thread_librar.Gc.{thread_zombie_add}
use user_level_thread_librar.Lifecycle.Process.{thread_switch_to_cleanup}

-- The dying thread has a joiner that is blocked, which will claim its structure.
abbrev pub is_claimed : Option ℕ → Machine → Bool
is_claimed none s = false
is_claimed (some joiner) s = is_blocked (s.threads joiner).state

unfoldable pub bury : ℕ → Machine → Machine
bury dying s =
    if dying == main_thread
    then s
    else (let r = defer_stack_reclaim dying s in
        if is_claimed (r.threads dying).joined_by r then r else thread_zombie_add dying r)

abbrev pub wake_joiner : Policy → Option ℕ → Machine → Machine
wake_joiner policy none s = s
wake_joiner policy (some joiner) s = revive policy joiner s

unfoldable pub terminate : ℕ → Machine → Machine
terminate retval s =
    let t = s.current_thread in
    set_thread t (record (s.threads t) { retval = retval; state = State.terminated }) s

-- `fast_restore_context`: the next thread runs, and nothing of the dying one is saved.
unfoldable pub restore : ℕ → Machine → Machine
restore next s = record (set_thread next (record (s.threads next) { state = State.running }) s) {
  current_thread = next;
}

-- `thread_exit` up to the choice of the next thread.
unfoldable pub leave : Policy → ℕ → Machine → Machine
leave policy retval s =
    let dying = s.current_thread in
    let r = bury dying (terminate retval s) in wake_joiner policy (r.threads dying).joined_by r

unfoldable pub thread_exit : Policy → ℕ → Machine → Outcome
thread_exit policy retval s = elim (thread_scheduler_pick_next (leave policy retval s)) [
  | none ↦ cleaned (thread_switch_to_cleanup (leave policy retval s))
  | some (next, r) ↦ switched (restore next r)
]

-- The fault is in the guard page of the thread.
abbrev pub in_guard_page : Option ℕ → ℕ → Bool
in_guard_page none fault = false
in_guard_page (some map) fault = leb map fault && ltb fault (map + guard_size)

-- With the default handler restored, the signal that is raised again kills the process.
unfoldable pub sigsegv_handler : Policy → ℕ → Machine → Outcome
sigsegv_handler policy fault s =
    let t = s.current_thread in
    if in_guard_page (s.threads t).stack_map fault
    then thread_exit policy 0 (set_thread t (record (s.threads t) { stack_overflow = true }) s)
    else killed s
