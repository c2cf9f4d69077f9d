-- ===== src/System/Order/Kept.antt =====
-- What leaves the ready queue and all priorities: the end, the join and the creation of threads.
use user_level_thread_librar.Base.{
  ℕ, zero, suc, refl, inl, inr, Option, none, some, Bool, true, false, ◌&&◌, List, [], ◌∷◌, ◌==◌,
  if◌then◌else◌, arith, ltb, length, Bool-cases,
}
use user_level_thread_librar.Machine.{Machine, Thread, StackEntry, store_at, main_thread}
use user_level_thread_librar.Pool.{
  stack_pool_push, stack_pool_alloc, stack_pool_empty, pop_stack, reclaim_from,
  reclaim_deferred_stacks_all, defer_stack_reclaim,
}
use user_level_thread_librar.Gc.{
  zombie_init, thread_zombie_add, thread_zombie_remove, thread_cleanup_register,
}
use user_level_thread_librar.Lifecycle.Objects.{
  thread_obj_release, thread_free, thread_alloc, thread_head_ref_alloc,
}
use user_level_thread_librar.Lifecycle.Exit.{bury, is_claimed}
use user_level_thread_librar.Lifecycle.Join.{claim, push_stack}
use user_level_thread_librar.Lifecycle.Create.{
  initialize, register_handlers, main_slot, refill_pool,
}
use user_level_thread_librar.Scheduler.Same.{SameOrder, SameOrder-refl, SameOrder-trans}

stored : (p : Option ℕ) (v : ℕ) (s : Machine) → SameOrder s (store_at p v s)
stored none v s = SameOrder-refl s
stored (some p) v s = record { priorities = λ t. refl; ready_queue = refl }

pub pushed : (e : StackEntry) (s : Machine) → SameOrder s (stack_pool_push e s)
unfolding stack_pool_push
pushed e s = record { priorities = λ t. ground arith; ready_queue = ground arith }

push_stack-SameOrder : (m : Option ℕ) (th : Thread) (s : Machine) → SameOrder s (push_stack m th s)
push_stack-SameOrder none th s = SameOrder-refl s
push_stack-SameOrder (some m) th s = pushed _ s

pub released : (t : ℕ) (s : Machine) → SameOrder s (thread_obj_release t s)
unfolding thread_obj_release thread_free
released t s = record { priorities = λ x. ground arith; ready_queue = ground arith }

unzombied : (t : ℕ) (s : Machine) → SameOrder s (thread_zombie_remove t s)
unfolding thread_zombie_remove
unzombied t s = record { priorities = λ x. ground arith; ready_queue = ground arith }

claimed : (t : ℕ) (s : Machine) → SameOrder s (claim t s)
unfolding claim
claimed t s = elim (Bool-cases (t == main_thread)) [
  | inl m ↦ rw (m, claim) (SameOrder-refl s)
  | inr o ↦
      let r = thread_zombie_remove t s in
      rw (o, claim)
        (SameOrder-trans (unzombied t s) (
          SameOrder-trans (push_stack-SameOrder (r.threads t).stack_map (r.threads t) r)
            (released t _)))
]

pub claim_stored :
    (t : ℕ) (p : Option ℕ) (v : ℕ) (s : Machine) → SameOrder s (claim t (store_at p v s))
claim_stored t p v s = SameOrder-trans (stored p v s) (claimed t (store_at p v s))

deferred : (t : ℕ) (s : Machine) → SameOrder s (defer_stack_reclaim t s)
unfolding defer_stack_reclaim
deferred t s = record { priorities = λ x. ground arith; ready_queue = ground arith }

zombied : (t : ℕ) (s : Machine) → SameOrder s (thread_zombie_add t s)
unfolding thread_zombie_add zombie_init
zombied t s = record { priorities = λ x. ground arith; ready_queue = ground arith }

pub buried : (t : ℕ) (s : Machine) → SameOrder s (bury t s)
unfolding bury
buried t s = elim (Bool-cases (t == main_thread)) [
  | inl m ↦ rw (m, bury) (SameOrder-refl s)
  | inr o ↦
      let r = defer_stack_reclaim t s in
      elim (Bool-cases (is_claimed (r.threads t).joined_by r)) [
        | inl c ↦ rw (o, c, bury) (deferred t s)
        | inr z ↦ rw (o, z, bury) (SameOrder-trans (deferred t s) (zombied t r))
      ]
]

pub allocated : (s : Machine) → SameOrder s (stack_pool_alloc s).1
unfolding stack_pool_alloc
allocated s = go s.stack_pool
  where
    go : (l : List StackEntry) → SameOrder s (pop_stack l s).1
    go [] = record { priorities = λ t. ground arith; ready_queue = ground arith }
    go (e ∷ l) = record { priorities = λ t. refl; ready_queue = refl }

reclaimed_from : (n : ℕ) (l : List StackEntry) (s : Machine) → SameOrder s (reclaim_from n l s)
unfolding reclaim_from
reclaimed_from zero l s = SameOrder-refl s
reclaimed_from (suc n) [] s = SameOrder-refl s
reclaimed_from (suc n) (e ∷ l) s =
    let r : Machine = record s { deferred_stacks = l } in
    let k = SameOrder-trans (pushed e r) (reclaimed_from n l (stack_pool_push e r)) in
    record { priorities = k.priorities; ready_queue = k.ready_queue }

pub reclaimed : (s : Machine) → SameOrder s (reclaim_deferred_stacks_all s)
unfolding reclaim_deferred_stacks_all
reclaimed s = reclaimed_from _ s.deferred_stacks s

pub slotted : (owner : ℕ) (s : Machine) → SameOrder s (thread_head_ref_alloc owner s).1
unfolding thread_head_ref_alloc
slotted owner s = record { priorities = λ t. ground arith; ready_queue = ground arith }

pub structured : (s : Machine) → SameOrder s (thread_alloc s).1
unfolding thread_alloc
structured s = record { priorities = λ t. ground arith; ready_queue = ground arith }

pub refilled : (s : Machine) → SameOrder s (refill_pool s)
refilled s = elim (Bool-cases (stack_pool_empty s && ltb 0 (length s.deferred_stacks))) [
  | inl y ↦ rw (y, refill_pool) (reclaimed s)
  | inr n ↦ rw (n, refill_pool) (SameOrder-refl s)
]

registered : (s : Machine) → SameOrder s (register_handlers s)
unfolding register_handlers thread_cleanup_register
registered s = record { priorities = λ t. ground arith; ready_queue = ground arith }

given_main_slot : (r : Option ℕ × Machine) → SameOrder r.1 (main_slot r).1
given_main_slot (none, s) = record { priorities = λ t. ground arith; ready_queue = refl }
given_main_slot (some slot, s) = record { priorities = λ t. ground arith; ready_queue = refl }

pub initialized : (s : Machine) → SameOrder s (initialize s).1
unfolding initialize
initialized s = go s.scheduler_initialized
  where
    slotted_main : Option ℕ × Machine
    slotted_main = thread_head_ref_alloc main_thread (register_handlers s)

    go : (b : Bool) → SameOrder s (if b then (true, s) else main_slot slotted_main).1
    go true = SameOrder-refl s
    go false =
        SameOrder-trans (registered s) (
          SameOrder-trans (slotted main_thread (register_handlers s))
            (given_main_slot slotted_main))
