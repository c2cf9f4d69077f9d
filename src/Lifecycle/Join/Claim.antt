-- ===== src/Lifecycle/Join/Claim.antt =====
-- src/thread.c: how `thread_join` takes the result of a terminated thread and keeps its structure
-- and its stack for reuse, none of which the scheduler sees.
use user_level_thread_librar.Base.{ℕ, refl, Option, none, some, ◌==◌, inl, inr, arith, Bool-cases}
use user_level_thread_librar.Machine.{
  Machine, Thread, State, after, set_thread, main_thread, store_at,
}
use user_level_thread_librar.Abstract.{Moves}
use user_level_thread_librar.Refinement.{view, IsSound}
use user_level_thread_librar.Refinement.Unseen.{
  Unseen, Unseen-refl, Unseen-trans, Unseen-outside, Unseen-Moves,
}
use user_level_thread_librar.Pool.{stack_pool_push}
use user_level_thread_librar.Gc.{thread_zombie_remove}
use user_level_thread_librar.Lifecycle.Objects.{thread_obj_release, thread_free}
use user_level_thread_librar.Lifecycle.Join.{
  push_stack, claim, join_terminated, join_collect, join_resumed,
}

pub stored : (p : Option ℕ) (v : ℕ) (s : Machine) → Unseen s (store_at p v s)
stored none v s = Unseen-refl s
stored (some p) v s = Unseen-outside s (store_at (some p) v s) refl refl refl refl refl refl

unzombified : (t : ℕ) (s : Machine) → Unseen s (thread_zombie_remove t s)
unfolding thread_zombie_remove
unzombified t s = record {
  current = ground arith;
  ready_queue = ground arith;
  mutexes = ground arith;
  sems = ground arith;
  conds = ground arith;
  state = λ x. ground arith;
  queued = λ x. ground arith;
  context = λ x. ground arith;
  joined_by = λ x. ground arith;
  signal = λ x. ground arith;
}

pub released : (t : ℕ) (s : Machine) → Unseen s (thread_obj_release t s)
unfolding thread_obj_release thread_free
released t s = record {
  current = ground arith;
  ready_queue = ground arith;
  mutexes = ground arith;
  sems = ground arith;
  conds = ground arith;
  state = λ x. ground arith;
  queued = λ x. ground arith;
  context = λ x. ground arith;
  joined_by = λ x. ground arith;
  signal = λ x. ground arith;
}

pushed : (m : Option ℕ) (th : Thread) (s : Machine) → Unseen s (push_stack m th s)
unfolding stack_pool_push
pushed none th s = Unseen-refl s
pushed (some map) th s = record {
  current = ground arith;
  ready_queue = ground arith;
  mutexes = ground arith;
  sems = ground arith;
  conds = ground arith;
  state = λ x. ground arith;
  queued = λ x. ground arith;
  context = λ x. ground arith;
  joined_by = λ x. ground arith;
  signal = λ x. ground arith;
}

pub claimed : (t : ℕ) (s : Machine) → Unseen s (claim t s)
unfolding claim
claimed t s = elim (Bool-cases (t == main_thread)) [
  | inl m ↦ rw (m, claim) (Unseen-refl s)
  | inr o ↦
      let r = thread_zombie_remove t s in
      let u = push_stack (r.threads t).stack_map (r.threads t) r in
      rw (o, claim)
        (Unseen-trans (unzombified t s)
          (Unseen-trans (pushed (r.threads t).stack_map (r.threads t) r) (released t u)))
]

pub join_terminated-Moves :
    (target : ℕ) (retval : Option ℕ) (s : Machine)
    → IsSound s
    → Moves (view s) (view (after (join_terminated target retval s)))
unfolding join_terminated
join_terminated-Moves target retval s i = Unseen-Moves i (
    Unseen-trans (stored retval (s.threads target).retval s)
      (claimed target (store_at retval (s.threads target).retval s)))

pub collected :
    (target : ℕ) (retval : Option ℕ) (s : Machine) → Unseen s (after (join_collect target retval s))
unfolding join_collect
collected target retval s =
    let both =
      Unseen-trans (stored retval (s.threads target).retval s)
        (claimed target (store_at retval (s.threads target).retval s)) in
    elim (Bool-cases (s.threads target).stack_overflow) [
      | inl o ↦
          rw (o, join_collect)
            (Unseen-trans both (Unseen-outside _ _ refl refl refl refl refl refl))
      | inr n ↦ rw (n, join_collect) both
    ]

unblocked :
    (s : Machine)
    → IsSound s
    → Unseen s (
        set_thread s.current_thread
          (record (s.threads s.current_thread) { waiting_for = none; state = State.running })
          s)
unblocked s i = record {
  current = refl;
  ready_queue = refl;
  mutexes = refl;
  sems = refl;
  conds = refl;
  state = λ x. ground (arith, i.one_running s.current_thread);
  queued = λ x. ground arith;
  context = λ x. ground arith;
  joined_by = λ x. ground arith;
  signal = λ x. ground arith;
}

-- What `thread_join` does when it is resumed is nothing that the scheduler sees.
pub join_resumed-Moves :
    (target : ℕ) (retval : Option ℕ) (s : Machine)
    → IsSound s
    → Moves (view s) (view (after (join_resumed target retval s)))
unfolding join_resumed
join_resumed-Moves target retval s i =
    Unseen-Moves i (Unseen-trans (unblocked s i) (collected target retval _))
