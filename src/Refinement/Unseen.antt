-- ===== src/Refinement/Unseen.antt =====
-- Changes of the state that the abstract scheduler does not see: priorities, pending signals,
-- stacks, zombies, the chains of joins, the pools and what is written to the program's memory.
use user_level_thread_librar.Base.{ℕ, ◌≡◌, refl, sym, subst, ◌∙◌, arith, Distinct}
use user_level_thread_librar.Machine.{Machine}
use user_level_thread_librar.Abstract.{
  Channel, on_mutex, on_sem, on_cond, on_join, on_signal, nowhere, Stay, Moves, done, more, stays,
}
use user_level_thread_librar.Refinement.{view, waits_in, IsSound}

pub record Unseen (s r : Machine) : Type 0 where
  pub current : r.current_thread ≡ s.current_thread
  pub ready_queue : r.ready_queue ≡ s.ready_queue
  pub mutexes : r.mutexes ≡ s.mutexes
  pub sems : r.sems ≡ s.sems
  pub conds : r.conds ≡ s.conds
  pub state : (t : ℕ) → (r.threads t).state ≡ (s.threads t).state
  pub queued : (t : ℕ) → (r.threads t).in_ready_queue ≡ (s.threads t).in_ready_queue
  pub context : (t : ℕ) → (r.threads t).context ≡ (s.threads t).context
  pub joined_by : (t : ℕ) → (r.threads t).joined_by ≡ (s.threads t).joined_by
  pub signal : (t : ℕ) → (r.threads t).waiting_for_signal ≡ (s.threads t).waiting_for_signal

pub Unseen-refl : (s : Machine) → Unseen s s
Unseen-refl s = record {
  current = refl;
  ready_queue = refl;
  mutexes = refl;
  sems = refl;
  conds = refl;
  state = λ t. refl;
  queued = λ t. refl;
  context = λ t. refl;
  joined_by = λ t. refl;
  signal = λ t. refl;
}

pub Unseen-trans : {s r u : Machine} → Unseen s r → Unseen r u → Unseen s u
Unseen-trans a b = record {
  current = b.current ∙ a.current;
  ready_queue = b.ready_queue ∙ a.ready_queue;
  mutexes = b.mutexes ∙ a.mutexes;
  sems = b.sems ∙ a.sems;
  conds = b.conds ∙ a.conds;
  state = λ t. b.state t ∙ a.state t;
  queued = λ t. b.queued t ∙ a.queued t;
  context = λ t. b.context t ∙ a.context t;
  joined_by = λ t. b.joined_by t ∙ a.joined_by t;
  signal = λ t. b.signal t ∙ a.signal t;
}

pub Unseen-waits : {s r : Machine} → Unseen s r → (d : Channel) → waits_in r d ≡ waits_in s d
Unseen-waits u (on_mutex k) = rw u.mutexes
Unseen-waits u (on_sem k) = rw u.sems
Unseen-waits u (on_cond k) = rw u.conds
Unseen-waits u (on_join t) = ground (arith, u.state t, u.joined_by t)
Unseen-waits u (on_signal t) = ground (arith, u.signal t)
Unseen-waits u nowhere = refl

pub Unseen-Stay : {s r : Machine} → IsSound s → Unseen s r → Stay (view s) (view r)
Unseen-Stay {s} {r} i u = record {
  current = u.current;
  ready_distinct = subst (λ l. Distinct l) (sym u.ready_queue) i.ready_distinct;
  members = λ t. rw u.ready_queue;
  queued = u.queued;
  state = u.state;
  channel = λ t b. ground (arith, u.context t);
  waits = λ d t. rw (Unseen-waits u d);
  waits_distinct = λ d. rw (Unseen-waits u d) (i.waits_distinct d);
}

pub Unseen-Moves : {s r : Machine} → IsSound s → Unseen s r → Moves (view s) (view r)
Unseen-Moves i u = more done (stays (Unseen-Stay i u))

-- The threads, the queues and the running thread are the same.
pub Unseen-outside :
    (s r : Machine)
    → r.threads ≡ s.threads
    → r.current_thread ≡ s.current_thread
    → r.ready_queue ≡ s.ready_queue
    → r.mutexes ≡ s.mutexes
    → r.sems ≡ s.sems
    → r.conds ≡ s.conds
    → Unseen s r
Unseen-outside s r th c q ms ss cs = record {
  current = c;
  ready_queue = q;
  mutexes = ms;
  sems = ss;
  conds = cs;
  state = λ t. rw th;
  queued = λ t. rw th;
  context = λ t. rw th;
  joined_by = λ t. rw th;
  signal = λ t. rw th;
}
