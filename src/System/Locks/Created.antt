-- ===== src/System/Locks/Created.antt =====
-- What leaves every mutex and every semaphore as it is: the creation of a thread.
use user_level_thread_librar.Base.{
  ℕ, zero, suc, refl, inl, inr, Option, none, some, Bool, true, false, arith, Bool-cases,
}
use user_level_thread_librar.Machine.{
  Policy, Machine, StackEntry, Creation, Outcome, returned, switched, entered, cleaned, killed,
  after, set_thread, in_create,
}
use user_level_thread_librar.Scheduler.{
  thread_scheduler_enqueue, yield_then, thread_ready_queue_empty,
}
use user_level_thread_librar.Pool.{stack_pool_alloc, reclaim_deferred_stacks_all}
use user_level_thread_librar.Lifecycle.Objects.{
  thread_head_ref_alloc, thread_alloc, thread_obj_release,
}
use user_level_thread_librar.Lifecycle.Join.Claim.{released}
use user_level_thread_librar.Lifecycle.Create.{
  create_finish, create_slot, create_fail, create_round, create_resumed, create_with,
  create_initialized, retried, if_returned, publish, new_thread, initialize, refill_pool,
  thread_create,
}
use user_level_thread_librar.Lifecycle.Create.Rounds.{allocated, reclaimed, slotted, pushed}
use user_level_thread_librar.Lifecycle.Create.Call.{initialized, structured, refilled}
use user_level_thread_librar.System.Locks.Kept.{
  KeepsLocks, KeepsLocks-trans, Unseen-KeepsLocks, set_thread-KeepsLocks, yield_then-KeepsLocks,
}

publish-KeepsLocks :
    (p : Policy) (c : Creation) (slot : ℕ) (s : Machine) → KeepsLocks s (publish p c slot s)
unfolding publish thread_scheduler_enqueue
publish-KeepsLocks p c slot s = record { mutexes = ground arith; sems = ground arith }

create_slot-KeepsLocks :
    (p : Policy) (c : Creation) (e : StackEntry) (o : Option ℕ × Machine)
    → KeepsLocks o.1 (after (create_slot p c e o))
create_slot-KeepsLocks p c e (none, s) =
    let r = set_thread c.newth (record (s.threads c.newth) { head_joiner = none }) s in
    let k = KeepsLocks-trans (set_thread-KeepsLocks c.newth _ s) (
      KeepsLocks-trans (Unseen-KeepsLocks (released c.newth r))
        (Unseen-KeepsLocks (pushed e (thread_obj_release c.newth r)))) in
    record { mutexes = k.mutexes; sems = k.sems }
create_slot-KeepsLocks p c e (some slot, s) = publish-KeepsLocks p c slot s

create_finish-KeepsLocks :
    (p : Policy) (c : Creation) (e : StackEntry) (s : Machine)
    → KeepsLocks s (after (create_finish p c e s))
unfolding create_finish
create_finish-KeepsLocks p c e s =
    let a = set_thread c.newth (new_thread c e (s.threads c.newth)) s in
    KeepsLocks-trans (set_thread-KeepsLocks c.newth _ s) (
      KeepsLocks-trans (Unseen-KeepsLocks (slotted c.newth a))
        (create_slot-KeepsLocks p c e (thread_head_ref_alloc c.newth a)))

create_fail-KeepsLocks : (c : Creation) (s : Machine) → KeepsLocks s (after (create_fail c s))
unfolding create_fail
create_fail-KeepsLocks c s =
    let k = released c.newth s in record { mutexes = k.mutexes; sems = k.sems }

if_returned-KeepsLocks :
    (s : Machine) (o : Outcome) (k : Machine → Outcome)
    → KeepsLocks s (after o)
    → ((t : Machine) → KeepsLocks t (after (k t)))
    → KeepsLocks s (after (if_returned o k))
if_returned-KeepsLocks s (returned rc t) k a b = KeepsLocks-trans a (b t)
if_returned-KeepsLocks s (switched t) k a b = a
if_returned-KeepsLocks s (entered t) k a b = a
if_returned-KeepsLocks s (cleaned t) k a b = a
if_returned-KeepsLocks s (killed t) k a b = a

create_round-KeepsLocks :
    (p : Policy) (left : ℕ) (c : Creation) (r : Option StackEntry × Machine)
    → KeepsLocks r.1 (after (create_round p left c r))
unfolding create_round
create_round-KeepsLocks p zero c (some e, s) = create_finish-KeepsLocks p c e s
create_round-KeepsLocks p (suc left) c (some e, s) = create_finish-KeepsLocks p c e s
create_round-KeepsLocks p zero c (none, s) =
    KeepsLocks-trans (Unseen-KeepsLocks (reclaimed s)) (create_fail-KeepsLocks c _)
create_round-KeepsLocks p (suc left) c (none, s) =
    let r = reclaim_deferred_stacks_all s in
    let k = Unseen-KeepsLocks (reclaimed s) in
    elim (Bool-cases (thread_ready_queue_empty r)) [
      | inl e ↦ rw e (KeepsLocks-trans k (create_fail-KeepsLocks c r))
      | inr n ↦ rw n (
          KeepsLocks-trans k (
            if_returned-KeepsLocks r (yield_then p (in_create (retried c)) r)
              (λ t. create_round p left (retried c) (stack_pool_alloc t))
              (yield_then-KeepsLocks p (in_create (retried c)) r)
              (λ t.
                KeepsLocks-trans (Unseen-KeepsLocks (allocated t))
                  (create_round-KeepsLocks p left (retried c) (stack_pool_alloc t)))))
    ]

pub create_resumed-KeepsLocks :
    (p : Policy) (c : Creation) (s : Machine) → KeepsLocks s (after (create_resumed p c s))
unfolding create_resumed
create_resumed-KeepsLocks p c s =
    KeepsLocks-trans (Unseen-KeepsLocks (allocated s))
      (create_round-KeepsLocks p _ c (stack_pool_alloc s))

create_with-KeepsLocks :
    (p : Policy) (newthread func arg : ℕ) (o : Option ℕ × Machine)
    → KeepsLocks o.1 (after (create_with p newthread func arg o))
create_with-KeepsLocks p newthread func arg (none, s) = record { mutexes = refl; sems = refl }
create_with-KeepsLocks p newthread func arg (some newth, s) =
    KeepsLocks-trans (Unseen-KeepsLocks (refilled s))
      (create_resumed-KeepsLocks p _ (refill_pool s))

create_initialized-KeepsLocks :
    (p : Policy) (newthread func arg : ℕ) (o : Bool × Machine)
    → KeepsLocks o.1 (after (create_initialized p newthread func arg o))
create_initialized-KeepsLocks p newthread func arg (false, s) = record {
  mutexes = refl;
  sems = refl;
}
create_initialized-KeepsLocks p newthread func arg (true, s) =
    KeepsLocks-trans (Unseen-KeepsLocks (structured s))
      (create_with-KeepsLocks p newthread func arg (thread_alloc s))

pub thread_create-KeepsLocks :
    (p : Policy) (newthread func : Option ℕ) (arg : ℕ) (s : Machine)
    → KeepsLocks s (after (thread_create p newthread func arg s))
unfolding thread_create
thread_create-KeepsLocks p none func arg s = record { mutexes = refl; sems = refl }
thread_create-KeepsLocks p (some n) none arg s = record { mutexes = refl; sems = refl }
thread_create-KeepsLocks p (some n) (some f) arg s =
    KeepsLocks-trans (Unseen-KeepsLocks (initialized s))
      (create_initialized-KeepsLocks p n f arg (initialize s))
