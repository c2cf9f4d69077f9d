-- ===== src/Lifecycle/Exit/Ended.antt =====
-- src/thread.c: what `thread_exit` does that the abstract scheduler does not see, and its last
-- step as `Switch`.
use user_level_thread_librar.Base.{
  ℕ, ◌≡◌, subst, true, false, List, ◌∷◌, ◌==◌, inl, inr, if◌then◌else◌, arith, elem, Distinct,
  Bool-cases,
}
use user_level_thread_librar.Machine.{Machine, State, main_thread}
use user_level_thread_librar.Scheduler.{taken}
use user_level_thread_librar.Abstract.{Channel, on_join, on_signal, Switch, exits}
use user_level_thread_librar.Refinement.{view, waits_in, IsSound}
use user_level_thread_librar.Refinement.Unseen.{Unseen, Unseen-refl, Unseen-trans}
use user_level_thread_librar.Pool.{defer_stack_reclaim}
use user_level_thread_librar.Gc.{zombie_init, thread_zombie_add}
use user_level_thread_librar.Lifecycle.Exit.{bury, is_claimed, restore}

-- `l` is `s` when the running thread has terminated; nothing waits for that thread.
pub record Ended (s l : Machine) : Type 0 where
  pub current : l.current_thread ≡ s.current_thread
  pub distinct : Distinct l.ready_queue
  pub members : (t : ℕ) → elem t l.ready_queue ≡ elem t s.ready_queue
  pub queued : (t : ℕ) → (l.threads t).in_ready_queue ≡ (s.threads t).in_ready_queue
  pub state :
      (t : ℕ)
      → (l.threads t).state
        ≡ (if t == s.current_thread then State.terminated else (s.threads t).state)
  pub context : (t : ℕ) → (l.threads t).context ≡ (s.threads t).context
  pub waits : (d : Channel) (t : ℕ) → elem t (waits_in l d) ≡ elem t (waits_in s d)
  pub waits_distinct : (d : Channel) → Distinct (waits_in l d)

module _ {s l : Machine} (i : IsSound s) (e : Ended s l) (next : ℕ) (q : List ℕ)
    (picked : l.ready_queue ≡ next ∷ q) where
  abbrev final : Machine
  final = restore next (taken next q l)

  next_in : elem next s.ready_queue ≡ true
  next_in = ground (arith, e.members next, picked)

  next_ready : (s.threads next).state ≡ State.ready
  next_ready = ground (arith, next_in, i.ready_queued next, i.queued_ready next)

  cur_running : (s.threads s.current_thread).state ≡ State.running
  cur_running = ground (arith, i.one_running s.current_thread)

  cur_out :
      ((s.threads s.current_thread).in_ready_queue ≡ false)
      × (elem s.current_thread s.ready_queue ≡ false)
  cur_out =
      ground (arith, i.queued_ready s.current_thread, i.ready_queued s.current_thread, cur_running)

  apart : (next == s.current_thread) ≡ false
  apart = ground (arith, next_ready, cur_running)

  split : Distinct (next ∷ q)
  split = subst (λ x. Distinct x) picked e.distinct

  waits-final : (d : Channel) → waits_in final d ≡ waits_in l d
  unfolding restore taken
  waits-final (on_join t) = ground (arith, e.state next, next_ready, apart)
  waits-final (on_signal t) = ground arith
  waits-final d = ground arith

  pub ended-Switch : Switch exits (view s) (view final)
  unfolding restore taken
  ended-Switch = record {
    chosen = next_in;
    ready_distinct = split.1;
    members = λ t. ground (arith, e.members t, picked, split.0, cur_out);
    queued = λ t. ground (arith, e.queued t, cur_out);
    state = λ t. ground (arith, e.state t);
    channel = λ t. ground (arith, e.context t);
    waits = λ d t. rw (waits-final d) (ground (arith, e.waits d t));
    waits_distinct = λ d. rw (waits-final d) (e.waits_distinct d);
  }

deferred : (t : ℕ) (s : Machine) → Unseen s (defer_stack_reclaim t s)
unfolding defer_stack_reclaim
deferred t s = record {
  current = ground arith;
  ready_queue = ground arith;
  mutexes = ground arith;
  sems = ground arith;
  conds = ground arith;
  state = λ x. ground arith;
  queued = λ x. ground arith;
  context = λ x. ground arith;
  joined_by = λ x. ground arith;
  signal = λ x. ground arith;
}

zombified : (t : ℕ) (s : Machine) → Unseen s (thread_zombie_add t s)
unfolding thread_zombie_add zombie_init
zombified t s = record {
  current = ground arith;
  ready_queue = ground arith;
  mutexes = ground arith;
  sems = ground arith;
  conds = ground arith;
  state = λ x. ground arith;
  queued = λ x. ground arith;
  context = λ x. ground arith;
  joined_by = λ x. ground arith;
  signal = λ x. ground arith;
}

pub buried : (t : ℕ) (s : Machine) → Unseen s (bury t s)
unfolding bury
buried t s = elim (Bool-cases (t == main_thread)) [
  | inl m ↦ rw (m, bury) (Unseen-refl s)
  | inr o ↦
      let r = defer_stack_reclaim t s in
      elim (Bool-cases (is_claimed (r.threads t).joined_by r)) [
        | inl c ↦ rw (o, c, bury) (deferred t s)
        | inr z ↦ rw (o, z, bury) (Unseen-trans (deferred t s) (zombified t r))
      ]
]
