-- ===== src/Lifecycle/Create.antt =====
-- src/thread.c: `thread_create`. The handlers that it registers are in Gc, Objects and Handlers.
pub mod Refinement
pub mod Rounds
pub mod Call
pub mod Retries
use user_level_thread_librar.Base.{
  ◌∷◌, ℕ, zero, suc, ◌+◌, ◌-◌, Option, none, some, Bool, true, false, not, ◌&&◌, List, pos, ltb,
  if◌then◌else◌, length,
}
use user_level_thread_librar.Machine.{
  pool_free_handler, Policy, Machine, Thread, StackEntry, State, Creation, in_create, entry,
  main_thread, Outcome, returned, switched, entered, cleaned, killed, set_thread, set_errno,
  store_at, einval, enomem, minus_one, zero_rc,
}
use user_level_thread_librar.Scheduler.{
  thread_ready_queue_empty, thread_scheduler_enqueue, yield_then,
}
use user_level_thread_librar.Pool.{
  stack_pool_alloc, stack_pool_push, stack_pool_empty, reclaim_deferred_stacks_all,
}
use user_level_thread_librar.Gc.{thread_cleanup_register}
use user_level_thread_librar.Lifecycle.Objects.{
  thread_alloc, thread_obj_release, thread_head_ref_alloc,
}

abbrev pub default_priority : ℕ
default_priority = 10

abbrev pub max_alloc_retries : ℕ
max_alloc_retries = 4096

-- The structure of a new thread, but for `head_joiner` and `id`; what it held before is `old`.
abbrev pub new_thread : Creation → StackEntry → Thread → Thread
new_thread c e old = record old {
  start_fun = c.func;
  arg = c.funcarg;
  state = State.ready;
  retval = 0;
  stack_map = some e.map;
  stack_base = e.stack;
  valgrind_stack_id = e.valgrind_id;
  priority = pos default_priority;
  in_ready_queue = false;
  in_zombie_queue = false;
  joined_by = none;
  waiting_for = none;
  stack_overflow = false;
  pending_signals = 0;
  blocked_signals = 0;
  waited_signals = 0;
  waiting_for_signal = false;
}

-- The new thread becomes visible: it is queued and its handle is stored.
unfoldable pub publish : Policy → Creation → ℕ → Machine → Machine
publish policy c slot s =
    let th = s.threads c.newth in
    let a =
      set_thread c.newth
        (record th { head_joiner = some slot; context = entry; id = s.next_thread_id }) s in
    store_at (some c.newthread) c.newth
      (thread_scheduler_enqueue policy c.newth (record a { next_thread_id = s.next_thread_id + 1 }))

abbrev pub create_slot : Policy → Creation → StackEntry → Option ℕ × Machine → Outcome
create_slot policy c e (none, s) =
    let r = set_thread c.newth (record (s.threads c.newth) { head_joiner = none }) s in
    returned minus_one (set_errno enomem (stack_pool_push e (thread_obj_release c.newth r)))
create_slot policy c e (some slot, s) = returned zero_rc (publish policy c slot s)

-- `thread_create` once it has a stack.
unfoldable pub create_finish : Policy → Creation → StackEntry → Machine → Outcome
create_finish policy c e s =
    create_slot policy c e
      (thread_head_ref_alloc c.newth (set_thread c.newth (new_thread c e (s.threads c.newth)) s))

unfoldable pub create_fail : Creation → Machine → Outcome
create_fail c s = returned minus_one (set_errno enomem (thread_obj_release c.newth s))

abbrev pub retried : Creation → Creation
retried c = record c { alloc_retries = c.alloc_retries + 1 }

-- A call that returns is followed by `k`; otherwise another thread runs first.
abbrev pub if_returned : Outcome → (Machine → Outcome) → Outcome
if_returned (returned rc t) k = k t
if_returned (switched t) k = switched t
if_returned (entered t) k = entered t
if_returned (cleaned t) k = cleaned t
if_returned (killed t) k = killed t

-- The loop that waits for a stack, with the retries left and the result of `stack_pool_alloc`.
-- Between two rounds other threads may run.
unfoldable pub create_round : Policy → ℕ → Creation → Option StackEntry × Machine → Outcome
create_round policy left c (some e, s) = create_finish policy c e s
create_round policy zero c (none, s) = create_fail c (reclaim_deferred_stacks_all s)
create_round policy (suc left) c (none, s) =
    let r = reclaim_deferred_stacks_all s in
    if thread_ready_queue_empty r
    then create_fail c r
    else if_returned (yield_then policy (in_create (retried c)) r)
        (λ t. create_round policy left (retried c) (stack_pool_alloc t))

unfoldable pub create_resumed : Policy → Creation → Machine → Outcome
create_resumed policy c s =
    create_round policy (max_alloc_retries - c.alloc_retries) c (stack_pool_alloc s)

abbrev pub refill_pool : Machine → Machine
refill_pool s =
    if stack_pool_empty s && ltb 0 (length s.deferred_stacks)
    then reclaim_deferred_stacks_all s
    else s

abbrev pub create_with : Policy → ℕ → ℕ → ℕ → Option ℕ × Machine → Outcome
create_with policy newthread func funcarg (none, s) = returned minus_one (set_errno enomem s)
create_with policy newthread func funcarg (some newth, s) =
    create_resumed policy
      (record {
        newthread = newthread;
        func = func;
        funcarg = funcarg;
        newth = newth;
        alloc_retries = 0;
      })
      (refill_pool s)

-- The slot of the main thread, on the first call; false if there is no memory for it.
abbrev pub main_slot : Option ℕ × Machine → Bool × Machine
main_slot (none, s) =
    (false, set_thread main_thread (record (s.threads main_thread) { head_joiner = none }) s)
main_slot (some slot, s) = (
  true,
  record (set_thread main_thread (record (s.threads main_thread) { head_joiner = some slot }) s) {
    scheduler_initialized = true;
  },
)

-- `thread_cleanup_register(); atexit(thread_pool_free_all);`
unfoldable pub register_handlers : Machine → Machine
register_handlers s =
    let r = thread_cleanup_register s in
    record r { exit_handlers = pool_free_handler ∷ r.exit_handlers }

unfoldable pub initialize : Machine → Bool × Machine
initialize s =
    if s.scheduler_initialized
    then (true, s)
    else main_slot (thread_head_ref_alloc main_thread (register_handlers s))

abbrev pub create_initialized : Policy → ℕ → ℕ → ℕ → Bool × Machine → Outcome
create_initialized policy newthread func funcarg (false, s) =
    returned minus_one (set_errno enomem s)
create_initialized policy newthread func funcarg (true, s) =
    create_with policy newthread func funcarg (thread_alloc s)

unfoldable pub thread_create : Policy → Option ℕ → Option ℕ → ℕ → Machine → Outcome
thread_create policy none func funcarg s = returned minus_one (set_errno einval s)
thread_create policy (some newthread) none funcarg s = returned minus_one (set_errno einval s)
thread_create policy (some newthread) (some func) funcarg s =
    create_initialized policy newthread func funcarg (initialize s)
