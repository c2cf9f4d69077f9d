-- ===== src/Sem.antt =====
-- src/thread_sem.c: counting semaphores with direct hand-over to the first waiter.
pub mod Balance
pub mod Refinement
use user_level_thread_librar.Base.{
  ℕ, Option, none, some, List, [], ◌∷◌, ◌++◌, ℤ, pos, ◌+ℤ◌, ◌-ℤ◌, ltb_ℤ, if◌then◌else◌, update,
  is_empty,
}
use user_level_thread_librar.Machine.{
  Policy, Machine, Sem, in_sem_wait, Outcome, returned, switched, State, set_thread, swap_thread,
  minus_one, zero_rc,
}
use user_level_thread_librar.Scheduler.{thread_scheduler_pick_next, revive}

abbrev pub set_sem : ℕ → Sem → Machine → Machine
set_sem m se s = record s { sems = update s.sems m se }

unfoldable pub thread_sem_init : Option ℕ → ℤ → Machine → Outcome
thread_sem_init none value s = returned minus_one s
thread_sem_init (some m) value s =
    if ltb_ℤ value (pos 0)
    then returned minus_one s
    else returned zero_rc (set_sem m (record { count = value; waiting_queue = [] }) s)

unfoldable pub thread_sem_destroy : Option ℕ → Machine → Outcome
thread_sem_destroy none s = returned minus_one s
thread_sem_destroy (some m) s =
    if is_empty (s.sems m).waiting_queue
    then returned zero_rc (set_sem m (record (s.sems m) { count = pos 0 }) s)
    else returned minus_one s

unfoldable pub queue_on_sem : ℕ → ℕ → Machine → Machine
queue_on_sem m prev r =
    let a = set_thread prev (record (r.threads prev) { state = State.blocked }) r in
    let se = a.sems m in set_sem m (record se { waiting_queue = se.waiting_queue ++ prev ∷ [] }) a

unfoldable pub park_on_sem : ℕ → ℕ → ℕ → Machine → Machine
park_on_sem m prev next r = swap_thread prev next (in_sem_wait m) (queue_on_sem m prev r)

unfoldable pub sem_block : ℕ → Machine → Outcome
sem_block m s = elim (thread_scheduler_pick_next s) [
  | none ↦ returned minus_one s
  | some (next, r) ↦ switched (park_on_sem m s.current_thread next r)
]

unfoldable pub thread_sem_wait : Option ℕ → Machine → Outcome
thread_sem_wait none s = returned minus_one s
thread_sem_wait (some m) s =
    if ltb_ℤ (pos 0) (s.sems m).count
    then returned zero_rc (set_sem m (record (s.sems m) { count = (s.sems m).count -ℤ pos 1 }) s)
    else sem_block m s

abbrev pub release_unit : Policy → ℕ → List ℕ → Machine → Machine
release_unit policy m [] s = set_sem m (record (s.sems m) { count = (s.sems m).count +ℤ pos 1 }) s
release_unit policy m (revived ∷ q) s =
    revive policy revived (set_sem m (record (s.sems m) { waiting_queue = q }) s)

unfoldable pub thread_sem_post : Policy → Option ℕ → Machine → Outcome
thread_sem_post policy none s = returned minus_one s
thread_sem_post policy (some m) s =
    returned zero_rc (release_unit policy m (s.sems m).waiting_queue s)
