-- ===== src/System/Locks/Joined.antt =====
-- Joins leave every mutex and every semaphore as it is.
use user_level_thread_librar.Base.{
  ℕ, refl, inl, inr, Option, none, some, Bool, true, false, not, ◌&&◌, ◌==◌, Bool-cases, List-cases,
  is_none,
}
use user_level_thread_librar.Machine.{Context, Machine, after, is_terminated}
use user_level_thread_librar.Scheduler.{taken}
use user_level_thread_librar.Scheduler.Queue.{pick_next-cons, pick_next-nil}
use user_level_thread_librar.Lifecycle.Join.{
  join_terminated, join_resumed, join_chain, join_linked, join_block, link, is_head, begin_join,
  abandon_join, thread_join,
}
use user_level_thread_librar.Lifecycle.Join.Claim.{stored, claimed, collected}
use user_level_thread_librar.System.Locks.Kept.{
  KeepsLocks, KeepsLocks-trans, Unseen-KeepsLocks, set_thread-KeepsLocks, swap_thread-KeepsLocks,
  taken-KeepsLocks,
}

begin_join-KeepsLocks : (target : ℕ) (s : Machine) → KeepsLocks s (begin_join target s)
unfolding begin_join
begin_join-KeepsLocks target s = set_thread-KeepsLocks s.current_thread _ s

join_block-KeepsLocks :
    (target : ℕ) (retval : Option ℕ) (s : Machine)
    → KeepsLocks s (after (join_block target retval s))
unfolding join_block abandon_join
join_block-KeepsLocks target retval s =
    let b = begin_join target s in
    let k = begin_join-KeepsLocks target s in
    elim (List-cases b.ready_queue) [
      | inl e ↦ rw (pick_next-nil b e, join_block) (record { mutexes = k.mutexes; sems = k.sems })
      | inr (next, q, e) ↦
          let r = taken next q b in
          rw (pick_next-cons next q b e, join_block)
            (KeepsLocks-trans k (
              KeepsLocks-trans (taken-KeepsLocks next q b)
                (swap_thread-KeepsLocks r.current_thread next (Context.in_join target retval) r)))
    ]

link-KeepsLocks :
    (target slot : ℕ) (head : Bool) (s : Machine) → KeepsLocks s (link target slot head s)
unfolding link
link-KeepsLocks target slot true s = record { mutexes = refl; sems = refl }
link-KeepsLocks target slot false s = record { mutexes = refl; sems = refl }

join_linked-KeepsLocks :
    (target : ℕ) (retval : Option ℕ) (s : Machine)
    → KeepsLocks s (after (join_linked target retval s))
unfolding join_linked
join_linked-KeepsLocks target retval s =
    elim (Bool-cases (is_terminated (s.threads target).state)) [
      | inl y ↦ rw (y, join_linked) (Unseen-KeepsLocks (collected target retval s))
      | inr n ↦ rw (n, join_linked) (join_block-KeepsLocks target retval s)
    ]

join_chain-KeepsLocks :
    (target : ℕ) (retval slot own : Option ℕ) (s : Machine)
    → KeepsLocks s (after (join_chain target retval slot own s))
join_chain-KeepsLocks target retval none own s = record { mutexes = refl; sems = refl }
join_chain-KeepsLocks target retval (some slot) none s = record { mutexes = refl; sems = refl }
join_chain-KeepsLocks target retval (some slot) (some own) s =
    elim (Bool-cases (is_head target slot s && own == slot)) [
      | inl y ↦ rw y (record { mutexes = refl; sems = refl })
      | inr n ↦
          let h = is_head target slot s && not (own == slot) in
          rw n (
            KeepsLocks-trans (link-KeepsLocks target slot h s)
              (join_linked-KeepsLocks target retval (link target slot h s)))
    ]

join_terminated-KeepsLocks :
    (target : ℕ) (retval : Option ℕ) (s : Machine)
    → KeepsLocks s (after (join_terminated target retval s))
unfolding join_terminated
join_terminated-KeepsLocks target retval s =
    KeepsLocks-trans (Unseen-KeepsLocks (stored retval (s.threads target).retval s))
      (Unseen-KeepsLocks (claimed target _))

pub thread_join-KeepsLocks :
    (target retval : Option ℕ) (s : Machine) → KeepsLocks s (after (thread_join target retval s))
unfolding thread_join
thread_join-KeepsLocks none retval s = record { mutexes = refl; sems = refl }
thread_join-KeepsLocks (some target) retval s =
    elim (Bool-cases (is_none (s.threads target).joined_by)) [
      | inr j ↦ rw (j, thread_join) (record { mutexes = refl; sems = refl })
      | inl j ↦ elim (Bool-cases (target == s.current_thread)) [
        | inl c ↦ rw (j, c, thread_join) (record { mutexes = refl; sems = refl })
        | inr c ↦ elim (Bool-cases (is_terminated (s.threads target).state)) [
          | inl d ↦ rw (j, c, d, thread_join) (join_terminated-KeepsLocks target retval s)
          | inr d ↦ rw (j, c, d, thread_join) (join_chain-KeepsLocks target retval _ _ s)
        ]
      ]
    ]

pub join_resumed-KeepsLocks :
    (target : ℕ) (retval : Option ℕ) (s : Machine)
    → KeepsLocks s (after (join_resumed target retval s))
unfolding join_resumed
join_resumed-KeepsLocks target retval s =
    KeepsLocks-trans (set_thread-KeepsLocks s.current_thread _ s)
      (Unseen-KeepsLocks (collected target retval _))
