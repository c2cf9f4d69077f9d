-- ===== src/Cond.antt =====
-- src/thread_cond.c: condition variables.
pub mod Handover
pub mod Refinement
pub mod Broadcast
pub mod Wakeup
pub mod Guarded
pub mod Destroyed
use user_level_thread_librar.Base.{
  ℕ, Option, none, some, List, [], ◌∷◌, ◌++◌, if◌then◌else◌, update, is_empty,
}
use user_level_thread_librar.Machine.{
  Policy, Machine, Cond, Caller, in_cond_wait, Outcome, returned, switched, State, set_thread,
  swap_thread, minus_one, zero_rc,
}
use user_level_thread_librar.Scheduler.{thread_scheduler_pick_next, revive}
use user_level_thread_librar.Mutex.{hand_over, lock}

abbrev pub set_cond : ℕ → Cond → Machine → Machine
set_cond c co s = record s { conds = update s.conds c co }

unfoldable pub thread_cond_init : Option ℕ → Machine → Outcome
thread_cond_init none s = returned minus_one s
thread_cond_init (some c) s = returned zero_rc (set_cond c (record { waiting_queue = [] }) s)

unfoldable pub thread_cond_destroy : Option ℕ → Machine → Outcome
thread_cond_destroy none s = returned minus_one s
thread_cond_destroy (some c) s =
    if is_empty (s.conds c).waiting_queue then returned zero_rc s else returned minus_one s

unfoldable pub queue_on_cond : ℕ → ℕ → Machine → Machine
queue_on_cond c prev r =
    let a = set_thread prev (record (r.threads prev) { state = State.blocked }) r in
    let co = a.conds c in set_cond c (record co { waiting_queue = co.waiting_queue ++ prev ∷ [] }) a

unfoldable pub park_on_cond : ℕ → ℕ → ℕ → ℕ → Machine → Machine
park_on_cond c m prev next r = swap_thread prev next (in_cond_wait c m) (queue_on_cond c prev r)

-- `next` is picked before the mutex is released.
unfoldable pub cond_wait : Policy → ℕ → ℕ → Machine → Outcome
cond_wait policy c m s = elim (thread_scheduler_pick_next s) [
  | none ↦ lock Caller.cond_alone m (hand_over policy m (s.mutexes m).waiting_queue s)
  | some (next, r) ↦
      switched
        (park_on_cond c m s.current_thread next (hand_over policy m (r.mutexes m).waiting_queue r))
]

unfoldable pub thread_cond_wait : Policy → Option ℕ → Option ℕ → Machine → Outcome
thread_cond_wait policy none m s = returned minus_one s
thread_cond_wait policy (some c) none s = returned minus_one s
thread_cond_wait policy (some c) (some m) s = cond_wait policy c m s

-- What `thread_cond_wait` does when it is resumed.
unfoldable pub cond_wait_resumed : ℕ → Machine → Outcome
cond_wait_resumed m s = lock Caller.cond_end m s

abbrev pub wake_first : Policy → ℕ → List ℕ → Machine → Machine
wake_first policy c [] s = s
wake_first policy c (revived ∷ q) s =
    revive policy revived (set_cond c (record { waiting_queue = q }) s)

unfoldable pub thread_cond_signal : Policy → Option ℕ → Machine → Outcome
thread_cond_signal policy none s = returned minus_one s
thread_cond_signal policy (some c) s =
    returned zero_rc (wake_first policy c (s.conds c).waiting_queue s)

-- The loop of `thread_cond_broadcast`, along the queue that it empties.
unfoldable pub wake_all : Policy → ℕ → List ℕ → Machine → Machine
wake_all policy c [] s = s
wake_all policy c (revived ∷ q) s =
    wake_all policy c q (revive policy revived (set_cond c (record { waiting_queue = q }) s))

unfoldable pub thread_cond_broadcast : Policy → Option ℕ → Machine → Outcome
thread_cond_broadcast policy none s = returned minus_one s
thread_cond_broadcast policy (some c) s =
    returned zero_rc (wake_all policy c (s.conds c).waiting_queue s)
