-- ===== src/Lifecycle/Join/Results.antt =====
-- src/thread.c: what `thread_join` returns for a thread that overflowed its stack, and after a join
-- that found nobody to run.
use user_level_thread_librar.Base.{
  ℕ, ◌≡◌, refl, Option, none, some, false, not, ◌&&◌, ◌==◌, arith, [],
}
use user_level_thread_librar.Machine.{Machine, State, set_errno, edeadlk, is_terminated, set_thread}
use user_level_thread_librar.Lifecycle.Join.{
  link, begin_join, abandon_join, join_block, join_linked, is_head,
}

-- A target that can be joined from the current thread.
pub record IsJoinable (target : ℕ) (slot own : ℕ) (s : Machine) : Type 0 where
  pub unjoined : (s.threads target).joined_by ≡ none
  pub other : (target == s.current_thread) ≡ false
  pub alive : is_terminated (s.threads target).state ≡ false
  pub target_slot : (s.threads target).head_joiner ≡ some slot
  pub own_slot : (s.threads s.current_thread).head_joiner ≡ some own
  pub other_chain : (own == slot) ≡ false

module _ (target slot own : ℕ) (retval : Option ℕ) (s : Machine) (h : IsJoinable target slot own s)
    (alone : s.ready_queue ≡ []) where
  abbrev linked : Machine
  linked = link target slot (is_head target slot s && not (own == slot)) s

  linked_state : ((linked).threads target).state ≡ (s.threads target).state
  unfolding link
  linked_state = ground arith

  abbrev given_up : Machine
  given_up = set_errno edeadlk (abandon_join (begin_join target linked))

  blocks : join_linked target retval linked ≡ join_block target retval linked
  unfolding join_linked
  blocks = rw (linked_state, h.alive, join_linked) refl

-- The running thread as `join_resumed` leaves it.
abbrev unblocked : Machine → Machine
unblocked s =
    let t = s.current_thread in
    set_thread t (record (s.threads t) { waiting_for = none; state = State.running }) s
