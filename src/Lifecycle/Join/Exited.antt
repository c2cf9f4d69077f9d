-- ===== src/Lifecycle/Join/Exited.antt =====
-- src/thread.c: `thread_exit`, and then `thread_join` of the thread that has ended.
use user_level_thread_librar.Base.{
  ℕ, ◌≡◌, refl, ap, ◌∙◌, Option, none, some, true, false, List, ◌∷◌, ◌==◌, arith, inl, inr,
  Bool-cases,
}
use user_level_thread_librar.Machine.{
  Policy, Machine, returned, switched, zero_rc, store_at, main_thread, is_terminated,
}
use user_level_thread_librar.Scheduler.{taken}
use user_level_thread_librar.Scheduler.Queue.{pick_next-cons}
use user_level_thread_librar.Pool.{stack_pool_push, defer_stack_reclaim}
use user_level_thread_librar.Gc.{zombie_init, thread_zombie_add, thread_zombie_remove}
use user_level_thread_librar.Refinement.{IsSound}
use user_level_thread_librar.Lifecycle.Objects.{thread_obj_release, thread_free}
use user_level_thread_librar.Lifecycle.Exit.{
  bury, is_claimed, wake_joiner, terminate, restore, leave, thread_exit,
}
use user_level_thread_librar.Lifecycle.Exit.Ended.{buried}
use user_level_thread_librar.Lifecycle.Join.{claim, push_stack, join_terminated, thread_join}

retval-defer :
    (t x : ℕ) (s : Machine) → ((defer_stack_reclaim t s).threads x).retval ≡ (s.threads x).retval
unfolding defer_stack_reclaim
retval-defer t x s = ground arith

retval-zombie :
    (t x : ℕ) (s : Machine) → ((thread_zombie_add t s).threads x).retval ≡ (s.threads x).retval
unfolding thread_zombie_add zombie_init
retval-zombie t x s = ground arith

pub retval-bury : (t x : ℕ) (s : Machine) → ((bury t s).threads x).retval ≡ (s.threads x).retval
unfolding bury
retval-bury t x s = elim (Bool-cases (t == main_thread)) [
  | inl m ↦ rw (m, bury) refl
  | inr o ↦
      let r = defer_stack_reclaim t s in
      elim (Bool-cases (is_claimed (r.threads t).joined_by r)) [
        | inl c ↦ rw (o, c, bury) (retval-defer t x s)
        | inr z ↦ rw (o, z, bury) (retval-zombie t x r ∙ retval-defer t x s)
      ]
]

memory-push :
    (o : Option ℕ) (t : ℕ) (s : Machine) → (push_stack o (s.threads t) s).memory ≡ s.memory
unfolding stack_pool_push
memory-push none t s = refl
memory-push (some m) t s = ground arith

memory-release : (t : ℕ) (s : Machine) → (thread_obj_release t s).memory ≡ s.memory
unfolding thread_obj_release thread_free
memory-release t s = ground arith

memory-unzombie : (t : ℕ) (s : Machine) → (thread_zombie_remove t s).memory ≡ s.memory
unfolding thread_zombie_remove
memory-unzombie t s = ground arith

pub memory-claim : (t : ℕ) (s : Machine) → (claim t s).memory ≡ s.memory
unfolding claim
memory-claim t s = elim (Bool-cases (t == main_thread)) [
  | inl m ↦ rw (m, claim) refl
  | inr o ↦
      let r = thread_zombie_remove t s in
      rw (o, claim)
        (memory-release t (push_stack (r.threads t).stack_map (r.threads t) r)
          ∙ memory-push (r.threads t).stack_map t r
          ∙ memory-unzombie t s)
]

module _ (policy : Policy) (v : ℕ) (s : Machine) (i : IsSound s)
    (unjoined : (s.threads s.current_thread).joined_by ≡ none) (next : ℕ) (q : List ℕ)
    (e : s.ready_queue ≡ next ∷ q) where
  abbrev cur : ℕ
  cur = s.current_thread

  abbrev ended : Machine
  ended = bury cur (terminate v s)

  ended_unjoined : (ended.threads cur).joined_by ≡ none
  unfolding terminate
  ended_unjoined = (buried cur (terminate v s)).joined_by cur ∙ ground (arith, unjoined)

  leave-ended : leave policy v s ≡ ended
  unfolding leave
  leave-ended = ap (λ j. wake_joiner policy j ended) ended_unjoined

  ended_queue : ended.ready_queue ≡ next ∷ q
  unfolding terminate
  ended_queue = (buried cur (terminate v s)).ready_queue ∙ e

  abbrev resumed : Machine
  resumed = restore next (taken next q ended)

  exits : thread_exit policy v s ≡ switched resumed
  unfolding thread_exit
  exits = rw (leave-ended, pick_next-cons next q ended ended_queue, thread_exit) refl

  apart : (cur == next) ≡ false
  apart = ground (arith, e, i.ready_queued next, i.queued_ready next, i.one_running cur)

  resumed_retval : (resumed.threads cur).retval ≡ v
  unfolding restore taken terminate
  resumed_retval = ground (arith, apart, retval-bury cur cur (terminate v s))

  resumed_state : is_terminated (resumed.threads cur).state ≡ true
  unfolding restore taken terminate
  resumed_state = ground (arith, apart, (buried cur (terminate v s)).state cur)

  resumed_unjoined : (resumed.threads cur).joined_by ≡ none
  unfolding restore taken
  resumed_unjoined = ground (arith, apart, ended_unjoined)

  resumed_other : (cur == resumed.current_thread) ≡ false
  unfolding restore
  resumed_other = apart

  joins :
      (a : ℕ)
      → thread_join (some cur) (some a) resumed
        ≡ returned zero_rc (claim cur (store_at (some a) (resumed.threads cur).retval resumed))
  unfolding thread_join join_terminated
  joins a = rw (resumed_unjoined, resumed_other, resumed_state, thread_join) refl

  stored :
      (a : ℕ) → (claim cur (store_at (some a) (resumed.threads cur).retval resumed)).memory a ≡ v
  stored a =
      ap (λ m. m a) (memory-claim cur (store_at (some a) (resumed.threads cur).retval resumed))
      ∙ ground (arith, resumed_retval)

-- In a sound state with a ready thread, a thread that nobody joins exits with a value: the next
-- thread runs, and its join of the dead thread returns 0 and stores that value.
pub join-exit :
    (policy : Policy) (v a next : ℕ) (q : List ℕ) (s : Machine)
    → IsSound s
    → (s.threads s.current_thread).joined_by ≡ none
    → s.ready_queue ≡ next ∷ q
    → (t u : Machine) × (thread_exit policy v s ≡ switched t)
      × (t.current_thread ≡ next)
      × (thread_join (some s.current_thread) (some a) t ≡ returned zero_rc u)
      × (u.memory a ≡ v)
unfolding restore
join-exit policy v a next q s i n e =
    let t = resumed policy v s i n next q e in
    (
      t,
      claim s.current_thread (store_at (some a) (t.threads s.current_thread).retval t),
      exits policy v s i n next q e,
      refl,
      joins policy v s i n next q e a,
      stored policy v s i n next q e a,
    )
