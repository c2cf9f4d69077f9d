-- ===== src/Scheduler/Ageing.antt =====
-- src/scheduler.c: ageing, which changes priorities, and the abstract scheduler.
use user_level_thread_librar.Base.{ℕ, ◌≡◌, refl, ap, List, [], ◌∷◌, arith, update}
use user_level_thread_librar.Machine.{Policy, fifo, prio, Machine, Thread}
use user_level_thread_librar.Scheduler.{gain, set_priority, age_waiting, age_running, age}
use user_level_thread_librar.Refinement.Unseen.{Unseen}

-- Ageing changes priorities alone.
age_waiting-only :
    (q : List ℕ) (th : ℕ → Thread) (t : ℕ)
    → age_waiting q th t ≡ set_priority (age_waiting q th t).priority (th t)
unfolding age_waiting
age_waiting-only [] th t = refl
age_waiting-only (x ∷ q) th t =
    ground (arith, age_waiting-only q (update th x (set_priority (gain (th x).priority) (th x))) t)

age_running-only :
    (prev : ℕ) (th : ℕ → Thread) (t : ℕ)
    → age_running prev th t ≡ set_priority (age_running prev th t).priority (th t)
unfolding age_running
age_running-only prev th t = ground arith

age-only :
    (policy : Policy) (s : Machine) (t : ℕ)
    → (age policy s).threads t ≡ set_priority ((age policy s).threads t).priority (s.threads t)
unfolding age
age-only fifo s t = refl
age-only prio s t = ground (
  arith,
  age_running-only s.current_thread (age_waiting s.ready_queue s.threads) t,
  age_waiting-only s.ready_queue s.threads t,
)

-- A state with other priorities is the same to the abstract scheduler.
pub reprioritised :
    (s r : Machine)
    → r.current_thread ≡ s.current_thread
    → r.ready_queue ≡ s.ready_queue
    → r.mutexes ≡ s.mutexes
    → r.sems ≡ s.sems
    → r.conds ≡ s.conds
    → ((t : ℕ) → r.threads t ≡ set_priority (r.threads t).priority (s.threads t))
    → Unseen s r
reprioritised s r c q ms ss cs th = record {
  current = c;
  ready_queue = q;
  mutexes = ms;
  sems = ss;
  conds = cs;
  state = λ t. ap (λ x. x.state) (th t);
  queued = λ t. ap (λ x. x.in_ready_queue) (th t);
  context = λ t. ap (λ x. x.context) (th t);
  joined_by = λ t. ap (λ x. x.joined_by) (th t);
  signal = λ t. ap (λ x. x.waiting_for_signal) (th t);
}

current-age : (policy : Policy) (s : Machine) → (age policy s).current_thread ≡ s.current_thread
unfolding age
current-age fifo s = refl
current-age prio s = refl

ready_queue-age : (policy : Policy) (s : Machine) → (age policy s).ready_queue ≡ s.ready_queue
unfolding age
ready_queue-age fifo s = refl
ready_queue-age prio s = refl

mutexes-age : (policy : Policy) (s : Machine) → (age policy s).mutexes ≡ s.mutexes
unfolding age
mutexes-age fifo s = refl
mutexes-age prio s = refl

sems-age : (policy : Policy) (s : Machine) → (age policy s).sems ≡ s.sems
unfolding age
sems-age fifo s = refl
sems-age prio s = refl

conds-age : (policy : Policy) (s : Machine) → (age policy s).conds ≡ s.conds
unfolding age
conds-age fifo s = refl
conds-age prio s = refl

pub age-Unseen : (policy : Policy) (s : Machine) → Unseen s (age policy s)
age-Unseen policy s =
    reprioritised s (age policy s) (current-age policy s) (ready_queue-age policy s)
      (mutexes-age policy s) (sems-age policy s) (conds-age policy s) (age-only policy s)
