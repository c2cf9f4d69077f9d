-- ===== src/Scheduler.antt =====
-- src/scheduler.c: the ready queue, `thread_yield`, `thread_yield_to`, `thread_set_priority`.
-- The policy, a constant of the compilation, is an argument.
pub mod Queue
pub mod Ageing
pub mod Refinement
pub mod Directed
pub mod SetPriority
pub mod Leaves
pub mod RoundRobin
pub mod Order
pub mod Bounds
pub mod Priority
pub mod Same
pub mod Reordered
pub mod Stable
use user_level_thread_librar.Base.{
  ℕ, Option, none, some, Bool, true, false, not, ◌&&◌, List, [], ◌∷◌, ◌++◌, ℤ, pos, negsuc, ◌+ℤ◌,
  ◌-ℤ◌, ltb_ℤ, leb_ℤ, ◌==◌, if◌then◌else◌, update, is_empty, remove,
}
use user_level_thread_librar.Machine.{
  Policy, fifo, prio, Thread, Machine, Context, Outcome, returned, switched, ready, running,
  in_yield, is_ready, is_running, set_thread, set_errno, swap_thread, einval, minus_one, zero_rc,
}

abbrev pub max_priority : ℤ
max_priority = pos 100

abbrev pub min_priority : ℤ
min_priority = pos 0

abbrev pub aging : ℤ
aging = pos 2

abbrev pub wait_bonus : ℤ
wait_bonus = pos 1

unfoldable pub thread_ready_queue_empty : Machine → Bool
thread_ready_queue_empty s = is_empty s.ready_queue

-- The loop of `thread_scheduler_enqueue` under THREAD_SCHED_PRIO: `t` goes before the first
-- thread of strictly lower priority, or to the tail.
unfoldable pub insert_by_priority : (ℕ → Thread) → ℕ → List ℕ → List ℕ
insert_by_priority th t [] = t ∷ []
insert_by_priority th t (cursor ∷ q) =
    if ltb_ℤ (th cursor).priority (th t).priority
    then t ∷ cursor ∷ q
    else cursor ∷ insert_by_priority th t q

unfoldable pub place : Policy → (ℕ → Thread) → ℕ → List ℕ → List ℕ
place fifo th t q = q ++ t ∷ []
place prio th t q = insert_by_priority th t q

unfoldable pub thread_scheduler_enqueue : Policy → ℕ → Machine → Machine
thread_scheduler_enqueue policy t s =
    if (s.threads t).in_ready_queue
    then s
    else record (set_thread t (record (s.threads t) { in_ready_queue = true }) s) {
      ready_queue = place policy s.threads t s.ready_queue;
    }

-- The state once `next` has left the ready queue, of which `q` is the rest.
unfoldable pub taken : ℕ → List ℕ → Machine → Machine
taken next q s = record (set_thread next (record (s.threads next) { in_ready_queue = false }) s) {
  ready_queue = q;
}

-- The dequeued thread, and the state without it.
abbrev pub dequeue : List ℕ → Machine → Option (ℕ × Machine)
dequeue [] s = none
dequeue (next ∷ q) s = some (next, taken next q s)

unfoldable pub thread_scheduler_pick_next : Machine → Option (ℕ × Machine)
thread_scheduler_pick_next s = dequeue s.ready_queue s

-- `priority += THREAD_WAIT`, at most THREAD_MAX_PRIORITY.
abbrev pub gain : ℤ → ℤ
gain p = if ltb_ℤ max_priority (p +ℤ wait_bonus) then max_priority else p +ℤ wait_bonus

-- `priority -= THREAD_AGING`, at least THREAD_MIN_PRIORITY.
abbrev pub lose : ℤ → ℤ
lose p = if ltb_ℤ (p -ℤ aging) min_priority then min_priority else p -ℤ aging

abbrev pub set_priority : ℤ → Thread → Thread
set_priority p th = record th { priority = p }

-- The loop over the ready queue in `thread_yield`.
unfoldable pub age_waiting : List ℕ → (ℕ → Thread) → ℕ → Thread
age_waiting [] th = th
age_waiting (t ∷ q) th = age_waiting q (update th t (set_priority (gain (th t).priority) (th t)))

unfoldable pub age_running : ℕ → (ℕ → Thread) → ℕ → Thread
age_running prev th =
    if is_running (th prev).state
    then update th prev (set_priority (lose (th prev).priority) (th prev))
    else th

unfoldable pub age : Policy → Machine → Machine
unfolding age_waiting age_running
age fifo s = s
age prio s = record s {
  threads = age_running s.current_thread (age_waiting s.ready_queue s.threads);
}

-- Under THREAD_SCHED_PRIO a thread of no higher priority does not replace the running one.
abbrev pub keeps_running : Policy → Thread → Thread → Bool
keeps_running fifo next prev = false
keeps_running prio next prev = leb_ℤ next.priority prev.priority

unfoldable pub requeue : Policy → ℕ → Machine → Machine
requeue policy prev s =
    if is_running (s.threads prev).state
    then thread_scheduler_enqueue policy prev
        (set_thread prev (record (s.threads prev) { state = ready }) s)
    else s

-- `thread_yield` after the ageing; `context` is where the thread goes on after the yield.
unfoldable pub yield_next : Policy → Context → Machine → Outcome
yield_next policy context s = elim (thread_scheduler_pick_next s) [
  | none ↦ returned zero_rc s
  | some (next, r) ↦
      let prev = r.current_thread in
      if next == prev
      then returned zero_rc r
      else if keeps_running policy (r.threads next) (r.threads prev)
      then returned zero_rc (thread_scheduler_enqueue policy next r)
      else switched (swap_thread prev next context (requeue policy prev r))
]

unfoldable pub yield_then : Policy → Context → Machine → Outcome
yield_then policy context s = yield_next policy context (age policy s)

abbrev pub thread_yield : Policy → Machine → Outcome
thread_yield policy s = yield_then policy in_yield s

-- The switch of `thread_yield_to` to a target that is ready.
unfoldable pub switch_to : Policy → ℕ → Machine → Machine
switch_to policy target s =
    let prev = s.current_thread in
    let a = set_thread prev (record (s.threads prev) { state = ready }) s in
    let b = thread_scheduler_enqueue policy prev a in
    let c = record b { ready_queue = remove target b.ready_queue } in
    swap_thread prev target in_yield
      (set_thread target (record (c.threads target) { in_ready_queue = false }) c)

unfoldable pub thread_yield_to : Policy → Option ℕ → Machine → Outcome
thread_yield_to policy none s = returned minus_one (set_errno einval s)
thread_yield_to policy (some target) s =
    if is_ready (s.threads target).state
    then switched (switch_to policy target s)
    else thread_yield policy s

abbrev pub clamp_priority : ℤ → ℤ
clamp_priority p =
    let q = if ltb_ℤ max_priority p then max_priority else p in
    if ltb_ℤ q min_priority then min_priority else q

-- The reinsertion of a ready thread whose priority has changed.
unfoldable pub reposition : Policy → ℕ → Machine → Machine
reposition policy th s =
    let a = record s { ready_queue = remove th s.ready_queue } in
    thread_scheduler_enqueue policy th
      (set_thread th (record (a.threads th) { in_ready_queue = false }) a)

abbrev pub outranks_current : ℕ → Machine → Bool
outranks_current th s =
    not (th == s.current_thread)
    && ltb_ℤ (s.threads s.current_thread).priority (s.threads th).priority

-- If the target now outranks the calling thread, yield directly to it.
unfoldable pub yield_if_outranked : ℕ → Machine → Outcome
yield_if_outranked th s =
    if outranks_current th s then thread_yield_to prio (some th) s else returned zero_rc s

-- The part of `thread_set_priority` that THREAD_SCHED_PRIO adds.
unfoldable pub rank : Policy → ℕ → Machine → Outcome
rank fifo th s = returned zero_rc s
rank prio th s =
    if is_ready (s.threads th).state
    then yield_if_outranked th (reposition prio th s)
    else returned zero_rc s

unfoldable pub thread_set_priority : Policy → Option ℕ → ℤ → Machine → Outcome
thread_set_priority policy none p s = returned minus_one s
thread_set_priority policy (some th) p s =
    rank policy th (set_thread th (set_priority (clamp_priority p) (s.threads th)) s)

-- `revived->state = THREAD_READY; thread_scheduler_enqueue(revived);`, as in every wake-up.
unfoldable pub revive : Policy → ℕ → Machine → Machine
revive policy t s =
    thread_scheduler_enqueue policy t (set_thread t (record (s.threads t) { state = ready }) s)
