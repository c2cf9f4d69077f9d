-- ===== src/Lifecycle/Join/Lost.antt =====
-- src/thread.c: a join whose tests were made before another thread has joined the target.
use user_level_thread_librar.Base.{
  ℕ, ◌≡◌, refl, Option, some, false, not, ◌&&◌, List, ◌∷◌, ◌==◌, arith,
}
use user_level_thread_librar.Machine.{Machine, in_join, switched, is_terminated, swap_thread}
use user_level_thread_librar.Refinement.{IsSound}
use user_level_thread_librar.Scheduler.{taken}
use user_level_thread_librar.Scheduler.Queue.{pick_next-cons}
use user_level_thread_librar.Lifecycle.Join.{link, begin_join, join_block, join_linked, is_head}

-- The thread `other` has joined the live target, which is of another chain than the current thread.
pub record IsOvertaken (target slot own other : ℕ) (s : Machine) : Type 0 where
  pub joined : (s.threads target).joined_by ≡ some other
  pub alive : is_terminated (s.threads target).state ≡ false
  pub other_target : (target == s.current_thread) ≡ false
  pub target_slot : (s.threads target).head_joiner ≡ some slot
  pub own_slot : (s.threads s.current_thread).head_joiner ≡ some own
  pub other_chain : (own == slot) ≡ false

module _ (target slot own other : ℕ) (retval : Option ℕ) (s : Machine) (i : IsSound s)
    (h : IsOvertaken target slot own other s) (next : ℕ) (q : List ℕ)
    (e : s.ready_queue ≡ next ∷ q) where
  abbrev linked : Machine
  linked = link target slot (is_head target slot s && not (own == slot)) s

  abbrev begun : Machine
  begun = begin_join target linked

  abbrev gone : Machine
  gone = swap_thread begun.current_thread next (in_join target retval) (taken next q begun)

  linked_state : (linked.threads target).state ≡ (s.threads target).state
  unfolding link
  linked_state = ground arith

  begun_queue : begun.ready_queue ≡ next ∷ q
  unfolding link begin_join
  begun_queue = ground (arith, e)

  blocks : join_linked target retval linked ≡ switched gone
  unfolding join_linked join_block taken
  blocks =
      rw (linked_state, h.alive, join_linked)
        (rw (pick_next-cons next q begun begun_queue, join_block) refl)
