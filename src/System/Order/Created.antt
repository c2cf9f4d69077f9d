-- ===== src/System/Order/Created.antt =====
-- The creation of a thread keeps the order of the ready queue.
use user_level_thread_librar.Base.{
  ℕ, zero, suc, ◌≡◌, refl, subst, ◌∙◌, inl, inr, Option, none, some, Bool, true, false, arith,
  Bool-cases,
}
use user_level_thread_librar.Machine.{
  prio, Context, Machine, Thread, StackEntry, Creation, Outcome, returned, switched, entered,
  cleaned, killed, after, set_thread, in_create,
}
use user_level_thread_librar.Abstract.{Moves}
use user_level_thread_librar.Abstract.Preservation.{Moves-Inv}
use user_level_thread_librar.Refinement.{view, IsSound}
use user_level_thread_librar.Refinement.Unseen.{Unseen-Moves}
use user_level_thread_librar.Scheduler.{yield_then, thread_ready_queue_empty}
use user_level_thread_librar.Scheduler.Ageing.{age-Unseen}
use user_level_thread_librar.Scheduler.Order.{descending-agree, priority}
use user_level_thread_librar.Scheduler.Priority.{IsOrdered, yield_then-IsOrdered}
use user_level_thread_librar.Scheduler.Refinement.{yield_then-Moves, yield_then-Stay}
use user_level_thread_librar.Scheduler.Reordered.{enqueue-IsOrdered}
use user_level_thread_librar.Scheduler.Same.{
  SameOrder-trans, SameOrder-IsOrdered, flagged-IsOrdered,
}
use user_level_thread_librar.Pool.{stack_pool_alloc, reclaim_deferred_stacks_all}
use user_level_thread_librar.Lifecycle.Objects.{
  thread_head_ref_alloc, thread_alloc, thread_obj_release,
}
use user_level_thread_librar.Lifecycle.Create.{
  create_finish, create_slot, create_fail, create_round, create_resumed, create_with,
  create_initialized, retried, if_returned, publish, new_thread, initialize, refill_pool,
  thread_create,
}
use user_level_thread_librar.Lifecycle.Create.Rounds
use user_level_thread_librar.Lifecycle.Create.Rounds.{IsUnused}
use user_level_thread_librar.Lifecycle.Create.Call
use user_level_thread_librar.Lifecycle.Create.Call.{AllocatesUnused}
use user_level_thread_librar.System.Order.Kept.{
  released, pushed, allocated, reclaimed, slotted, structured, refilled, initialized,
}

publish-IsOrdered :
    (c : Creation) (slot : ℕ) (s : Machine) → IsOrdered s → IsOrdered (publish prio c slot s)
unfolding publish
publish-IsOrdered c slot s o = enqueue-IsOrdered c.newth _ (flagged-IsOrdered c.newth _ s refl o)

create_slot-IsOrdered :
    (c : Creation) (e : StackEntry) (r : Option ℕ × Machine)
    → IsOrdered r.1
    → IsOrdered (after (create_slot prio c e r))
create_slot-IsOrdered c e (none, s) o =
    let r = set_thread c.newth (record (s.threads c.newth) { head_joiner = none }) s in
    let k = SameOrder-trans (released c.newth r) (pushed e (thread_obj_release c.newth r)) in
    SameOrder-IsOrdered k (flagged-IsOrdered c.newth _ s refl o)
create_slot-IsOrdered c e (some slot, s) o = publish-IsOrdered c slot s o

-- A structure that no thread has is not in the queue.
filled-IsOrdered :
    (t : ℕ) (th : Thread) (s : Machine)
    → IsSound s
    → IsUnused t s
    → IsOrdered s
    → IsOrdered (set_thread t th s)
filled-IsOrdered t th s i u o =
    descending-agree (priority (set_thread t th s).threads) (priority s.threads) s.ready_queue
      (λ x m. ground (arith, m, u, i.ready_queued x, i.queued_ready x))
    ∙ o

create_finish-IsOrdered :
    (c : Creation) (e : StackEntry) (s : Machine)
    → IsSound s
    → IsUnused c.newth s
    → IsOrdered s
    → IsOrdered (after (create_finish prio c e s))
unfolding create_finish
create_finish-IsOrdered c e s i u o =
    let a = set_thread c.newth (new_thread c e (s.threads c.newth)) s in
    create_slot-IsOrdered c e (thread_head_ref_alloc c.newth a)
      (SameOrder-IsOrdered (slotted c.newth a) (filled-IsOrdered c.newth _ s i u o))

create_fail-IsOrdered :
    (c : Creation) (s : Machine) → IsOrdered s → IsOrdered (after (create_fail c s))
unfolding create_fail
create_fail-IsOrdered c s o = SameOrder-IsOrdered (released c.newth s) o

create_round-IsOrdered :
    (left : ℕ) (c : Creation) (r : Option StackEntry × Machine)
    → IsSound r.1
    → IsUnused c.newth r.1
    → IsOrdered r.1
    → IsOrdered (after (create_round prio left c r))
unfolding create_round
create_round-IsOrdered zero c (some e, s) i u o = create_finish-IsOrdered c e s i u o
create_round-IsOrdered (suc left) c (some e, s) i u o = create_finish-IsOrdered c e s i u o
create_round-IsOrdered zero c (none, s) i u o =
    create_fail-IsOrdered c (reclaim_deferred_stacks_all s) (SameOrder-IsOrdered (reclaimed s) o)
create_round-IsOrdered (suc left) c (none, s) i u o =
    elim (Bool-cases (thread_ready_queue_empty r)) [
      | inl e ↦ rw e (create_fail-IsOrdered c r ordered)
      | inr n ↦ rw n (
          yielded (λ v. create_round-IsOrdered left (retried c) (stack_pool_alloc v))
            (yield_then prio ctx r) refl)
    ]
  where
    r : Machine
    r = reclaim_deferred_stacks_all s

    ctx : Context
    ctx = in_create (retried c)

    ordered : IsOrdered r
    ordered = SameOrder-IsOrdered (reclaimed s) o

    sound : IsSound r
    sound = Moves-Inv (Unseen-Moves i (Rounds.reclaimed s)) i

    yielded :
        ((v : Machine)
          → IsSound (stack_pool_alloc v).1
          → IsUnused c.newth (stack_pool_alloc v).1
          → IsOrdered (stack_pool_alloc v).1
          → IsOrdered (after (create_round prio left (retried c) (stack_pool_alloc v))))
        → (x : Outcome) → yield_then prio ctx r ≡ x
        → IsOrdered
            (after (if_returned x (λ v. create_round prio left (retried c) (stack_pool_alloc v))))
    yielded ih (returned rc v) e =
        let there =
          subst (λ x. Moves (view r) (view (after x))) e
            (yield_then-Moves prio ctx r sound (λ t. refl)) in
        let sound_v = Moves-Inv there sound in
        ih v (Moves-Inv (Unseen-Moves sound_v (Rounds.allocated v)) sound_v)
          ((Rounds.allocated v).state c.newth
            ∙ (yield_then-Stay prio ctx r v sound e).state c.newth
            ∙ (age-Unseen prio r).state c.newth
            ∙ (Rounds.reclaimed s).state c.newth
            ∙ u)
          (SameOrder-IsOrdered (allocated v)
            (subst (λ x. IsOrdered (after x)) e (yield_then-IsOrdered ctx r sound ordered)))
    yielded ih (switched v) e =
        subst (λ x. IsOrdered (after x)) e (yield_then-IsOrdered ctx r sound ordered)
    yielded ih (entered v) e =
        subst (λ x. IsOrdered (after x)) e (yield_then-IsOrdered ctx r sound ordered)
    yielded ih (cleaned v) e =
        subst (λ x. IsOrdered (after x)) e (yield_then-IsOrdered ctx r sound ordered)
    yielded ih (killed v) e =
        subst (λ x. IsOrdered (after x)) e (yield_then-IsOrdered ctx r sound ordered)

pub create_resumed-IsOrdered :
    (c : Creation) (s : Machine)
    → IsSound s
    → IsUnused c.newth s
    → IsOrdered s
    → IsOrdered (after (create_resumed prio c s))
unfolding create_resumed
create_resumed-IsOrdered c s i u o =
    create_round-IsOrdered _ c (stack_pool_alloc s)
      (Moves-Inv (Unseen-Moves i (Rounds.allocated s)) i) ((Rounds.allocated s).state c.newth ∙ u)
      (SameOrder-IsOrdered (allocated s) o)

create_with-IsOrdered :
    (newthread func arg : ℕ) (r : Option ℕ × Machine)
    → IsSound r.1
    → ((x : ℕ) → r.0 ≡ some x → IsUnused x r.1)
    → IsOrdered r.1
    → IsOrdered (after (create_with prio newthread func arg r))
create_with-IsOrdered newthread func arg (none, s) i u o = o
create_with-IsOrdered newthread func arg (some newth, s) i u o =
    create_resumed-IsOrdered _ (refill_pool s) (Moves-Inv (Unseen-Moves i (Call.refilled s)) i)
      ((Call.refilled s).state newth ∙ u newth refl) (SameOrder-IsOrdered (refilled s) o)

create_initialized-IsOrdered :
    (newthread func arg : ℕ) (r : Bool × Machine)
    → IsSound r.1
    → ((x : ℕ) → (thread_alloc r.1).0 ≡ some x → IsUnused x r.1)
    → IsOrdered r.1
    → IsOrdered (after (create_initialized prio newthread func arg r))
create_initialized-IsOrdered newthread func arg (false, s) i u o = o
create_initialized-IsOrdered newthread func arg (true, s) i u o =
    create_with-IsOrdered newthread func arg (thread_alloc s)
      (Moves-Inv (Unseen-Moves i (Call.structured s)) i)
      (λ x e. (Call.structured s).state x ∙ u x e) (SameOrder-IsOrdered (structured s) o)

pub create-IsOrdered :
    (newthread func : Option ℕ) (arg : ℕ) (s : Machine)
    → IsSound s
    → AllocatesUnused s
    → IsOrdered s
    → IsOrdered (after (thread_create prio newthread func arg s))
unfolding thread_create
create-IsOrdered none func arg s i u o = o
create-IsOrdered (some n) none arg s i u o = o
create-IsOrdered (some n) (some f) arg s i u o =
    create_initialized-IsOrdered n f arg (initialize s)
      (Moves-Inv (Unseen-Moves i (Call.initialized s)) i)
      (λ x e. (Call.initialized s).state x ∙ u x e) (SameOrder-IsOrdered (initialized s) o)
