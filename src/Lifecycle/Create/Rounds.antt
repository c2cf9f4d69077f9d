-- ===== src/Lifecycle/Create/Rounds.antt =====
-- src/thread.c: `thread_create` up to its last part: the first call's preparations, the structure,
-- and the loop that waits for a stack.
use user_level_thread_librar.Base.{
  ℕ, zero, suc, ◌≡◌, refl, sym, subst, ap, ◌∙◌, ◌⊎◌, inl, inr, Option, none, some, List, [], ◌∷◌,
  arith, Bool-cases,
}
use user_level_thread_librar.Machine.{
  Context, Policy, Machine, Thread, StackEntry, State, Creation, Outcome, returned, switched,
  entered, cleaned, killed, zero_rc, after, in_create, set_thread,
}
use user_level_thread_librar.Scheduler.{yield_then, thread_ready_queue_empty}
use user_level_thread_librar.Scheduler.Ageing.{age-Unseen}
use user_level_thread_librar.Scheduler.Refinement.{yield_then-Moves, yield_then-Stay}
use user_level_thread_librar.Abstract.{Moves}
use user_level_thread_librar.Abstract.Preservation.{Moves-Inv, Moves-trans}
use user_level_thread_librar.Refinement.{view, IsSound}
use user_level_thread_librar.Refinement.Unseen.{
  Unseen, Unseen-refl, Unseen-trans, Unseen-outside, Unseen-Moves,
}
use user_level_thread_librar.Pool.{
  stack_pool_alloc, stack_pool_push, reclaim_from, reclaim_deferred_stacks_all, pop_stack,
}
use user_level_thread_librar.Lifecycle.Objects.{thread_head_ref_alloc}
use user_level_thread_librar.Lifecycle.Create.{
  new_thread, create_slot, create_finish, create_fail, create_round, create_resumed, retried,
  if_returned,
}
use user_level_thread_librar.Lifecycle.Create.Refinement.{publish-Moves}

pub allocated : (s : Machine) → Unseen s (stack_pool_alloc s).1
unfolding stack_pool_alloc
allocated s = go s.stack_pool
  where
    go : (l : List StackEntry) → Unseen s (pop_stack l s).1
    go [] =
        Unseen-outside s (pop_stack [] s).1 (ground arith) (ground arith) (ground arith)
          (ground arith) (ground arith) (ground arith)
    go (e ∷ l) = Unseen-outside s (pop_stack (e ∷ l) s).1 refl refl refl refl refl refl

pub pushed : (e : StackEntry) (s : Machine) → Unseen s (stack_pool_push e s)
unfolding stack_pool_push
pushed e s =
    Unseen-outside s (stack_pool_push e s) (ground arith) (ground arith) (ground arith)
      (ground arith) (ground arith) (ground arith)

reclaimed_from : (n : ℕ) (l : List StackEntry) (s : Machine) → Unseen s (reclaim_from n l s)
unfolding reclaim_from
reclaimed_from zero l s = Unseen-refl s
reclaimed_from (suc n) [] s = Unseen-refl s
reclaimed_from (suc n) (e ∷ l) s =
    let r : Machine = record s { deferred_stacks = l } in
    Unseen-trans (Unseen-outside s r refl refl refl refl refl refl)
      (Unseen-trans (pushed e r) (reclaimed_from n l (stack_pool_push e r)))

pub reclaimed : (s : Machine) → Unseen s (reclaim_deferred_stacks_all s)
unfolding reclaim_deferred_stacks_all
reclaimed s = reclaimed_from _ s.deferred_stacks s

pub slotted : (owner : ℕ) (s : Machine) → Unseen s (thread_head_ref_alloc owner s).1
unfolding thread_head_ref_alloc
slotted owner s =
    Unseen-outside s (thread_head_ref_alloc owner s).1 (ground arith) (ground arith) (ground arith)
      (ground arith) (ground arith) (ground arith)

-- A call that does not fail: it returns 0, or another thread runs first.
abbrev pub GoesOn : Outcome → Machine → Type 0
GoesOn o t = (o ≡ returned zero_rc t) ⊎ (o ≡ switched t)

abbrev pub IsUnused : ℕ → Machine → Type 0
IsUnused x s = (s.threads x).state ≡ State.terminated

create_slot-Moves :
    (policy : Policy) (c : Creation) (e : StackEntry) (slot : Option ℕ) (s t : Machine)
    → IsSound s
    → IsUnused c.newth s
    → GoesOn
        (create_slot policy c e (slot, set_thread c.newth (new_thread c e (s.threads c.newth)) s))
        t
    → Moves (view s) (view t)
create_slot-Moves policy c e none s t i u (inl h) = absurd (cc)
create_slot-Moves policy c e none s t i u (inr h) = absurd (cc)
create_slot-Moves policy c e (some slot) s t i u (inl h) =
    subst (λ v. Moves (view s) (view v)) (ap after h) (publish-Moves policy c e slot s i u)
create_slot-Moves policy c e (some slot) s t i u (inr h) = absurd (cc)

-- Slots and structures are apart.
slot_after_fill :
    (owner x : ℕ) (th : Thread) (s : Machine)
    → thread_head_ref_alloc owner (set_thread x th s)
      ≡ ((thread_head_ref_alloc owner s).0, set_thread x th (thread_head_ref_alloc owner s).1)
unfolding thread_head_ref_alloc
slot_after_fill owner x th s = ground arith

threads-slot : (owner : ℕ) (s : Machine) → (thread_head_ref_alloc owner s).1.threads ≡ s.threads
unfolding thread_head_ref_alloc
threads-slot owner s = ground arith

create_finish-Moves :
    (policy : Policy) (c : Creation) (e : StackEntry) (s t : Machine)
    → IsSound s
    → IsUnused c.newth s
    → GoesOn (create_finish policy c e s) t
    → Moves (view s) (view t)
unfolding create_finish
create_finish-Moves policy c e s t i u h =
    let r = (thread_head_ref_alloc c.newth s).1 in
    let seen = slotted c.newth s in
    Moves-trans (Unseen-Moves i seen) (
      create_slot-Moves policy c e (thread_head_ref_alloc c.newth s).0 r t
        (Moves-Inv (Unseen-Moves i seen) i) (seen.state c.newth ∙ u)
        (subst
          (λ th.
            GoesOn
              (create_slot policy c e
                ((thread_head_ref_alloc c.newth s).0, set_thread c.newth (new_thread c e th) r))
              t)
          (ap (λ f. f c.newth) (sym (threads-slot c.newth s)))
          (subst (λ p. GoesOn (create_slot policy c e p) t)
            (slot_after_fill c.newth c.newth (new_thread c e (s.threads c.newth)) s) h)))

fail_ends : (c : Creation) (s t : Machine) → ¬ GoesOn (create_fail c s) t
unfolding create_fail
fail_ends c s t (inl h) = cc
fail_ends c s t (inr h) = cc

-- The rounds of the loop, with `r` the result of `stack_pool_alloc`.
create_round-Moves :
    (policy : Policy) (left : ℕ) (c : Creation) (r : Option StackEntry × Machine) (t : Machine)
    → IsSound r.1
    → IsUnused c.newth r.1
    → GoesOn (create_round policy left c r) t
    → Moves (view r.1) (view t)
unfolding create_round
create_round-Moves policy zero c (some e, s) t i u h = create_finish-Moves policy c e s t i u h
create_round-Moves policy (suc left) c (some e, s) t i u h =
    create_finish-Moves policy c e s t i u h
create_round-Moves policy zero c (none, s) t i u h =
    absurd (fail_ends c (reclaim_deferred_stacks_all s) t h)
create_round-Moves policy (suc left) c (none, s) t i u h =
    Moves-trans (Unseen-Moves i (reclaimed s)) (elim (Bool-cases (thread_ready_queue_empty r)) [
      | inl e ↦ absurd (fail_ends c r t (rw e at h))
      | inr n ↦
          yielded (λ v. create_round-Moves policy left (retried c) (stack_pool_alloc v) t)
            (yield_then policy ctx r) refl (rw n at h)
    ])
  where
    r : Machine
    r = reclaim_deferred_stacks_all s

    ctx : Context
    ctx = in_create (retried c)

    sound : IsSound r
    sound = Moves-Inv (Unseen-Moves i (reclaimed s)) i

    yielded :
        ((v : Machine)
          → IsSound (stack_pool_alloc v).1
          → IsUnused c.newth (stack_pool_alloc v).1
          → GoesOn (create_round policy left (retried c) (stack_pool_alloc v)) t
          → Moves (view (stack_pool_alloc v).1) (view t))
        → (o : Outcome) → yield_then policy ctx r ≡ o
        → GoesOn (if_returned o (λ v. create_round policy left (retried c) (stack_pool_alloc v))) t
        → Moves (view r) (view t)
    yielded ih (returned rc v) e g =
        let there =
          subst (λ o. Moves (view r) (view (after o))) e
            (yield_then-Moves policy ctx r sound (λ t. refl)) in
        let taken_stack = Unseen-Moves (Moves-Inv there sound) (allocated v) in
        Moves-trans there (
          Moves-trans taken_stack (
            ih v (Moves-Inv taken_stack (Moves-Inv there sound))
              ((allocated v).state c.newth
                ∙ (yield_then-Stay policy ctx r v sound e).state c.newth
                ∙ (age-Unseen policy r).state c.newth
                ∙ (reclaimed s).state c.newth
                ∙ u)
              g))
    yielded ih (switched v) e (inl g) = absurd (cc)
    yielded ih (switched v) e (inr g) =
        subst (λ o. Moves (view r) (view (after o))) (e ∙ g)
          (yield_then-Moves policy ctx r sound (λ t. refl))
    yielded ih (entered v) e (inl g) = absurd (cc)
    yielded ih (entered v) e (inr g) = absurd (cc)
    yielded ih (cleaned v) e (inl g) = absurd (cc)
    yielded ih (cleaned v) e (inr g) = absurd (cc)
    yielded ih (killed v) e (inl g) = absurd (cc)
    yielded ih (killed v) e (inr g) = absurd (cc)

-- A creation that goes on after a yield.
pub create_resumed-Moves :
    (policy : Policy) (c : Creation) (s t : Machine)
    → IsSound s
    → IsUnused c.newth s
    → GoesOn (create_resumed policy c s) t
    → Moves (view s) (view t)
unfolding create_resumed
create_resumed-Moves policy c s t i u h = Moves-trans (Unseen-Moves i (allocated s)) (
    create_round-Moves policy _ c (stack_pool_alloc s) t
      (Moves-Inv (Unseen-Moves i (allocated s)) i) ((allocated s).state c.newth ∙ u) h)
