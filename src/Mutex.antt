-- ===== src/Mutex.antt =====
-- src/thread_mutex.c: mutexes with direct hand-over to the first waiter.
pub mod Ownership
pub mod Refinement
use user_level_thread_librar.Base.{
  ℕ, Option, none, some, Bool, true, ◌||◌, List, [], ◌∷◌, ◌++◌, ℤ, pos, negsuc, eqb_ℤ,
  if◌then◌else◌, update, is_empty,
}
use user_level_thread_librar.Machine.{
  Policy, Machine, Mutex, Caller, program, cond_end, cond_alone, Context, in_lock, Outcome,
  returned, switched, State, set_thread, set_errno, swap_thread, einval, minus_one, zero_rc,
}
use user_level_thread_librar.Scheduler.{thread_scheduler_pick_next, revive}

abbrev pub set_mutex : ℕ → Mutex → Machine → Machine
set_mutex m mu s = record s { mutexes = update s.mutexes m mu }

-- `locked == -1`
abbrev pub is_destroyed : Mutex → Bool
is_destroyed mu = eqb_ℤ mu.locked (negsuc 0)

-- `!locked`
abbrev pub is_free : Mutex → Bool
is_free mu = eqb_ℤ mu.locked (pos 0)

unfoldable pub thread_mutex_init : Option ℕ → Machine → Outcome
thread_mutex_init none s = returned minus_one s
thread_mutex_init (some m) s =
    returned zero_rc (set_mutex m (record { locked = pos 0; waiting_queue = [] }) s)

unfoldable pub thread_mutex_destroy : Option ℕ → Machine → Outcome
thread_mutex_destroy none s = returned minus_one s
thread_mutex_destroy (some m) s =
    if is_empty (s.mutexes m).waiting_queue
    then returned zero_rc (set_mutex m (record (s.mutexes m) { locked = negsuc 0 }) s)
    else returned minus_one s

-- What the caller of `thread_mutex_lock` returns when the lock returns `rc`.
abbrev pub caller_result : Caller → ℤ → ℤ
caller_result program rc = rc
caller_result cond_end rc = zero_rc
caller_result cond_alone rc = minus_one

-- The slow path up to the swap: `prev` is blocked, at the tail of the waiting queue.
unfoldable pub queue_on_mutex : ℕ → ℕ → Machine → Machine
queue_on_mutex m prev r =
    let a = set_thread prev (record (r.threads prev) { state = State.blocked }) r in
    let mu = a.mutexes m in
    set_mutex m (record mu { waiting_queue = mu.waiting_queue ++ prev ∷ [] }) a

unfoldable pub park_on_mutex : Caller → ℕ → ℕ → ℕ → Machine → Machine
park_on_mutex caller m prev next r =
    swap_thread prev next (in_lock m caller) (queue_on_mutex m prev r)

unfoldable pub lock_held : Caller → ℕ → Machine → Outcome
lock_held caller m s = elim (thread_scheduler_pick_next s) [
  | none ↦ returned (caller_result caller minus_one) s
  | some (next, r) ↦ switched (park_on_mutex caller m s.current_thread next r)
]

unfoldable pub lock : Caller → ℕ → Machine → Outcome
lock caller m s =
    if is_destroyed (s.mutexes m)
    then returned (caller_result caller minus_one) (set_errno einval s)
    else if is_free (s.mutexes m)
    then returned (caller_result caller zero_rc)
        (set_mutex m (record (s.mutexes m) { locked = pos 1 }) s)
    else lock_held caller m s

unfoldable pub thread_mutex_lock : Option ℕ → Machine → Outcome
thread_mutex_lock none s = returned minus_one s
thread_mutex_lock (some m) s = lock program m s

-- The release of a held mutex: to the first waiter if there is one. `thread_cond_wait` has the
-- same lines.
abbrev pub hand_over : Policy → ℕ → List ℕ → Machine → Machine
hand_over policy m [] s = set_mutex m (record (s.mutexes m) { locked = pos 0 }) s
hand_over policy m (revived ∷ q) s =
    revive policy revived (set_mutex m (record (s.mutexes m) { waiting_queue = q }) s)

unfoldable pub thread_mutex_unlock : Policy → Option ℕ → Machine → Outcome
thread_mutex_unlock policy none s = returned minus_one s
thread_mutex_unlock policy (some m) s =
    if is_destroyed (s.mutexes m)
    then returned minus_one (set_errno einval s)
    else if is_free (s.mutexes m)
    then returned minus_one s
    else returned zero_rc (hand_over policy m (s.mutexes m).waiting_queue s)
