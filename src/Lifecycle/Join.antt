-- ===== src/Lifecycle/Join.antt =====
-- src/thread.c: `thread_join`.
pub mod Claim
pub mod Refinement
pub mod Results
pub mod Exited
pub mod Waited
pub mod Lost
use user_level_thread_librar.Base.{
  ℕ, Option, none, some, Bool, true, false, not, ◌&&◌, List, pos, ◌==◌, if◌then◌else◌, update,
  is_none,
}
use user_level_thread_librar.Machine.{
  Machine, Thread, State, is_terminated, main_thread, in_join, Outcome, returned, switched,
  set_thread, set_errno, store_at, swap_thread, einval, edeadlk, efault, minus_one, zero_rc,
}
use user_level_thread_librar.Scheduler.{thread_scheduler_pick_next}
use user_level_thread_librar.Pool.{stack_pool_push, entry_of}
use user_level_thread_librar.Gc.{thread_zombie_remove}
use user_level_thread_librar.Lifecycle.Objects.{thread_obj_release}

abbrev pub push_stack : Option ℕ → Thread → Machine → Machine
push_stack none th s = s
push_stack (some map) th s = stack_pool_push (entry_of map th) s

-- The structure and the stack of a joined thread are kept for reuse.
unfoldable pub claim : ℕ → Machine → Machine
claim target s =
    if target == main_thread
    then s
    else (let r = thread_zombie_remove target s in
        thread_obj_release target (push_stack (r.threads target).stack_map (r.threads target) r))

-- The fast path, for a target that has terminated.
unfoldable pub join_terminated : ℕ → Option ℕ → Machine → Outcome
join_terminated target retval s =
    returned zero_rc (claim target (store_at retval (s.threads target).retval s))

-- `thread_join` once the target has terminated, on the slow path.
unfoldable pub join_collect : ℕ → Option ℕ → Machine → Outcome
join_collect target retval s =
    let r = claim target (store_at retval (s.threads target).retval s) in
    if (s.threads target).stack_overflow
    then returned minus_one (set_errno efault r)
    else returned zero_rc r

unfoldable pub join_resumed : ℕ → Option ℕ → Machine → Outcome
join_resumed target retval s =
    let t = s.current_thread in
    join_collect target retval
      (set_thread t (record (s.threads t) { waiting_for = none; state = State.running }) s)

-- The current thread becomes the joiner of the target, and a member of its chain.
unfoldable pub link : ℕ → ℕ → Bool → Machine → Machine
link target slot becomes_head s =
    let a = set_thread target (record (s.threads target) { joined_by = some s.current_thread }) s in
    let t = s.current_thread in
    let b = set_thread t (record (a.threads t) { head_joiner = some slot }) a in
    if becomes_head then record b { head_refs = update b.head_refs slot t } else b

unfoldable pub begin_join : ℕ → Machine → Machine
begin_join target s =
    let t = s.current_thread in
    set_thread t (record (s.threads t) { state = State.blocked; waiting_for = some target }) s

unfoldable pub abandon_join : Machine → Machine
abandon_join s =
    let t = s.current_thread in
    set_thread t (record (s.threads t) { state = State.running; waiting_for = none }) s

unfoldable pub join_block : ℕ → Option ℕ → Machine → Outcome
join_block target retval s = elim (thread_scheduler_pick_next (begin_join target s)) [
  | none ↦ returned (pos edeadlk) (set_errno edeadlk (abandon_join (begin_join target s)))
  | some (next, r) ↦ switched (swap_thread r.current_thread next (in_join target retval) r)
]

unfoldable pub join_linked : ℕ → Option ℕ → Machine → Outcome
join_linked target retval s =
    if not (is_terminated (s.threads target).state)
    then join_block target retval s
    else join_collect target retval s

abbrev pub is_head : ℕ → ℕ → Machine → Bool
is_head target slot s = s.head_refs slot == target

-- The check for a cycle, with the slots of the target and of the current thread.
abbrev pub join_chain : ℕ → Option ℕ → Option ℕ → Option ℕ → Machine → Outcome
join_chain target retval none own s = returned minus_one (set_errno einval s)
join_chain target retval (some slot) none s = returned minus_one (set_errno einval s)
join_chain target retval (some slot) (some own) s =
    if is_head target slot s && own == slot
    then returned (pos edeadlk) (set_errno edeadlk s)
    else join_linked target retval (link target slot (is_head target slot s && not (own == slot)) s)

-- `thread_join` from its `preem_block` on: with ENABLE_PREEMPTION the timer can interrupt the thread
-- between the tests of `thread_join` and this.
abbrev pub join_locked : ℕ → Option ℕ → Machine → Outcome
join_locked target retval s =
    if is_terminated (s.threads target).state
    then join_terminated target retval s
    else join_chain target retval (s.threads target).head_joiner
        (s.threads s.current_thread).head_joiner s

unfoldable pub thread_join : Option ℕ → Option ℕ → Machine → Outcome
thread_join none retval s = returned minus_one (set_errno einval s)
thread_join (some target) retval s =
    if not (is_none (s.threads target).joined_by)
    then returned minus_one (set_errno einval s)
    else if target == s.current_thread
    then returned (pos edeadlk) (set_errno edeadlk s)
    else join_locked target retval s
