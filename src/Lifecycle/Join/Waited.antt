-- ===== src/Lifecycle/Join/Waited.antt =====
-- src/thread.c: `thread_exit` of a thread that another one joins, and the end of that join.
use user_level_thread_librar.Base.{
  ℕ, ◌≡◌, refl, sym, subst, ap, ◌∙◌, Option, none, some, false, List, ◌∷◌, ◌==◌, arith, inl, inr,
  Bool-cases, List-cases,
}
use user_level_thread_librar.Machine.{
  Policy, Machine, in_join, returned, switched, zero_rc, store_at, main_thread, after, State,
  set_thread,
}
use user_level_thread_librar.Scheduler.{taken, revive, thread_scheduler_enqueue}
use user_level_thread_librar.Scheduler.Queue.{pick_next-cons, pick_next-nil}
use user_level_thread_librar.Pool.{defer_stack_reclaim}
use user_level_thread_librar.Gc.{zombie_init, thread_zombie_add}
use user_level_thread_librar.Abstract.{on_join}
use user_level_thread_librar.Refinement.{IsSound}
use user_level_thread_librar.Lifecycle.Exit.{
  bury, is_claimed, wake_joiner, terminate, restore, leave, thread_exit,
}
use user_level_thread_librar.Lifecycle.Join.{claim, join_collect, join_resumed}
use user_level_thread_librar.Lifecycle.Join.Exited.{memory-claim, retval-bury}
use user_level_thread_librar.System.{resume, resume_at}

-- `stack_overflow` and `retval` of the thread `x` are as before.
record Same (x : ℕ) (s r : Machine) : Type 0 where
  retval : (r.threads x).retval ≡ (s.threads x).retval
  overflow : (r.threads x).stack_overflow ≡ (s.threads x).stack_overflow

bury-overflow :
    (t x : ℕ) (s : Machine) → ((bury t s).threads x).stack_overflow ≡ (s.threads x).stack_overflow
unfolding bury thread_zombie_add zombie_init defer_stack_reclaim
bury-overflow t x s = elim (Bool-cases (t == main_thread)) [
  | inl m ↦ rw (m, bury) refl
  | inr o ↦
      let r = defer_stack_reclaim t s in
      elim (Bool-cases (is_claimed (r.threads t).joined_by r)) [
        | inl c ↦ rw (o, c, bury) (ground arith)
        | inr z ↦ rw (o, z, bury) (ground arith)
      ]
]

wake-Same : (p : Policy) (o : Option ℕ) (x : ℕ) (s : Machine) → Same x s (wake_joiner p o s)
unfolding revive thread_scheduler_enqueue
wake-Same p none x s = record { retval = refl; overflow = refl }
wake-Same p (some j) x s = record { retval = ground arith; overflow = ground arith }

module _ (p : Policy) (v : ℕ) (s : Machine) where
  abbrev cur : ℕ
  cur = s.current_thread

  abbrev dead : Machine
  dead = bury cur (terminate v s)

  left-Same : Same cur dead (leave p v s)
  unfolding leave
  left-Same = wake-Same p (dead.threads cur).joined_by cur dead

  left_retval : ((leave p v s).threads cur).retval ≡ v
  unfolding terminate
  left_retval = left-Same.retval ∙ retval-bury cur cur (terminate v s) ∙ ground arith

  left_overflow : ((leave p v s).threads cur).stack_overflow ≡ (s.threads cur).stack_overflow
  unfolding terminate
  left_overflow = left-Same.overflow ∙ bury-overflow cur cur (terminate v s) ∙ ground arith

  restored-Same :
      (next : ℕ) (q : List ℕ) → Same cur (leave p v s) (restore next (taken next q (leave p v s)))
  unfolding restore taken
  restored-Same next q = record { retval = ground arith; overflow = ground arith }

  exits_to :
      (t : Machine) (next : ℕ) (q : List ℕ)
      → (leave p v s).ready_queue ≡ next ∷ q
      → thread_exit p v s ≡ switched t
      → restore next (taken next q (leave p v s)) ≡ t
  unfolding thread_exit
  exits_to t next q c e =
      let picked : thread_exit p v s ≡ switched (restore next (taken next q (leave p v s))) =
        rw (pick_next-cons next q (leave p v s) c, thread_exit) refl in
      ap after (sym picked ∙ e)

  exited :
      (t : Machine)
      → thread_exit p v s ≡ switched t
      → ((t.threads cur).retval ≡ v)
        × ((t.threads cur).stack_overflow ≡ (s.threads cur).stack_overflow)
  unfolding thread_exit
  exited t e = elim (List-cases (leave p v s).ready_queue) [
    | inl n ↦ absurd (cc (e, pick_next-nil (leave p v s) n))
    | inr (next, q, c) ↦
        let k = restored-Same next q in
        subst
          (λ t.
            ((t.threads cur).retval ≡ v)
            × ((t.threads cur).stack_overflow ≡ (s.threads cur).stack_overflow))
          (exits_to t next q c e) (k.retval ∙ left_retval, k.overflow ∙ left_overflow)
  ]

-- A thread that is joined is not its own joiner.
joiner_apart :
    (j : ℕ) (s : Machine)
    → IsSound s
    → (s.threads s.current_thread).joined_by ≡ some j
    → (s.current_thread == j) ≡ false
joiner_apart j s i e = ground (
  arith,
  e,
  i.one_running s.current_thread,
  i.waiting (on_join s.current_thread) j,
  i.one_running j,
)

-- The end of a join that has waited, for a target that has not overflowed its stack.
join_resumed-stores :
    (target a v : ℕ) (s : Machine)
    → (target == s.current_thread) ≡ false
    → (s.threads target).retval ≡ v
    → (s.threads target).stack_overflow ≡ false
    → (w : Machine) × (join_resumed target (some a) s ≡ returned zero_rc w) × (w.memory a ≡ v)
unfolding join_resumed join_collect
join_resumed-stores target a v s o r f =
    let t = s.current_thread in
    let u = set_thread t (record (s.threads t) { waiting_for = none; state = State.running }) s in
    let kept : (u.threads target).retval ≡ v = ground (arith, o, r) in
    let fine : (u.threads target).stack_overflow ≡ false = ground (arith, o, f) in
    let stored = store_at (some a) (u.threads target).retval u in
    (
      claim target stored,
      rw (fine, join_collect) refl,
      ap (λ m. m a) (memory-claim target stored) ∙ ground (arith, kept),
    )

-- In a sound state a thread that another one joins, and that has not overflowed its stack, exits
-- with a value. When the joiner is resumed where it waits, and the dead structure is as the exit
-- left it, the join returns 0 and has stored that value, whatever ran in between.
pub resume-exit :
    (p : Policy) (v a j : ℕ) (s t u : Machine)
    → IsSound s
    → (s.threads s.current_thread).joined_by ≡ some j
    → (s.threads s.current_thread).stack_overflow ≡ false
    → thread_exit p v s ≡ switched t
    → u.threads s.current_thread ≡ t.threads s.current_thread
    → u.current_thread ≡ j
    → (u.threads j).context ≡ in_join s.current_thread (some a)
    → (w : Machine) × (resume p u ≡ returned zero_rc w) × (w.memory a ≡ v)
unfolding resume resume_at
resume-exit p v a j s t u i e f x k c h =
    let d = exited p v s t x in
    let there : (u.threads u.current_thread).context ≡ in_join s.current_thread (some a) =
      ap (λ n. (u.threads n).context) c ∙ h in
    let r =
      join_resumed-stores s.current_thread a v u (rw c (joiner_apart j s i e))
        (ap (λ m. m.retval) k ∙ d.0) (ap (λ m. m.stack_overflow) k ∙ d.1 ∙ f) in
    (r.0, ap (λ n. resume_at p n u) there ∙ r.1, r.2)
