-- ===== src/System/Order/Joined.antt =====
-- Joins keep the order of the ready queue.
use user_level_thread_librar.Base.{
  ℕ, refl, inl, inr, Option, none, some, Bool, true, false, not, ◌&&◌, ◌==◌, arith, is_none,
  Bool-cases, List-cases,
}
use user_level_thread_librar.Machine.{Machine, Context, after, is_terminated}
use user_level_thread_librar.Scheduler.{taken}
use user_level_thread_librar.Scheduler.Queue.{pick_next-cons, pick_next-nil}
use user_level_thread_librar.Scheduler.Priority.{IsOrdered}
use user_level_thread_librar.Scheduler.Same.{
  SameOrder, SameOrder-IsOrdered, swap-IsOrdered, flagged-IsOrdered, taken-IsOrdered,
}
use user_level_thread_librar.Lifecycle.Join.{
  join_terminated, join_collect, join_resumed, join_chain, join_linked, join_block, link, is_head,
  begin_join, abandon_join, thread_join,
}
use user_level_thread_librar.System.Order.Kept.{claim_stored}

collect-IsOrdered :
    (target : ℕ) (retval : Option ℕ) (s : Machine)
    → IsOrdered s
    → IsOrdered (after (join_collect target retval s))
unfolding join_collect
collect-IsOrdered target retval s o =
    let done = SameOrder-IsOrdered (claim_stored target retval (s.threads target).retval s) o in
    elim (Bool-cases (s.threads target).stack_overflow) [
      | inl y ↦ rw (y, join_collect) done
      | inr n ↦ rw (n, join_collect) done
    ]

pub join_resumed-IsOrdered :
    (target : ℕ) (retval : Option ℕ) (s : Machine)
    → IsOrdered s
    → IsOrdered (after (join_resumed target retval s))
unfolding join_resumed
join_resumed-IsOrdered target retval s o =
    collect-IsOrdered target retval _ (flagged-IsOrdered s.current_thread _ s refl o)

join_block-IsOrdered :
    (target : ℕ) (retval : Option ℕ) (s : Machine)
    → IsOrdered s
    → IsOrdered (after (join_block target retval s))
unfolding join_block begin_join abandon_join
join_block-IsOrdered target retval s o =
    let b = begin_join target s in
    let begun : IsOrdered b = flagged-IsOrdered s.current_thread _ s refl o in
    elim (List-cases b.ready_queue) [
      | inl e ↦
          rw (pick_next-nil b e, join_block) (flagged-IsOrdered b.current_thread _ b refl begun)
      | inr (next, q, e) ↦
          rw (pick_next-cons next q b e, join_block)
            (swap-IsOrdered (taken next q b).current_thread next (Context.in_join target retval)
              (taken next q b) (taken-IsOrdered next q b e begun))
    ]

link-SameOrder :
    (target slot : ℕ) (head : Bool) (s : Machine) → SameOrder s (link target slot head s)
unfolding link
link-SameOrder target slot true s = record { priorities = λ t. ground arith; ready_queue = refl }
link-SameOrder target slot false s = record { priorities = λ t. ground arith; ready_queue = refl }

join_linked-IsOrdered :
    (target : ℕ) (retval : Option ℕ) (s : Machine)
    → IsOrdered s
    → IsOrdered (after (join_linked target retval s))
unfolding join_linked
join_linked-IsOrdered target retval s o =
    elim (Bool-cases (is_terminated (s.threads target).state)) [
      | inl y ↦ rw (y, join_linked) (collect-IsOrdered target retval s o)
      | inr n ↦ rw (n, join_linked) (join_block-IsOrdered target retval s o)
    ]

join_chain-IsOrdered :
    (target : ℕ) (retval slot own : Option ℕ) (s : Machine)
    → IsOrdered s
    → IsOrdered (after (join_chain target retval slot own s))
join_chain-IsOrdered target retval none own s o = o
join_chain-IsOrdered target retval (some slot) none s o = o
join_chain-IsOrdered target retval (some slot) (some own) s o =
    elim (Bool-cases (is_head target slot s && own == slot)) [
      | inl y ↦ rw y o
      | inr n ↦
          let h = is_head target slot s && not (own == slot) in
          rw n (
            join_linked-IsOrdered target retval (link target slot h s)
              (SameOrder-IsOrdered (link-SameOrder target slot h s) o))
    ]

pub join-IsOrdered :
    (target retval : Option ℕ) (s : Machine)
    → IsOrdered s
    → IsOrdered (after (thread_join target retval s))
unfolding thread_join join_terminated
join-IsOrdered none retval s o = o
join-IsOrdered (some target) retval s o = elim (Bool-cases (is_none (s.threads target).joined_by)) [
  | inr j ↦ rw (j, thread_join) o
  | inl j ↦ elim (Bool-cases (target == s.current_thread)) [
    | inl c ↦ rw (j, c, thread_join) o
    | inr c ↦ elim (Bool-cases (is_terminated (s.threads target).state)) [
      | inl d ↦
          rw (j, c, d, thread_join)
            (SameOrder-IsOrdered (claim_stored target retval (s.threads target).retval s) o)
      | inr d ↦ rw (j, c, d, thread_join) (join_chain-IsOrdered target retval _ _ s o)
    ]
  ]
]
