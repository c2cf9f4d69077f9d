-- ===== src/Lifecycle/Join/Refinement.antt =====
-- src/thread.c: `thread_join` as moves of the abstract scheduler, when another thread is ready.
use user_level_thread_librar.Base.{
  ℕ, ◌≡◌, refl, sym, subst, ap, ◌∙◌, ◌≢◌, Option, none, some, Bool, false, ◌&&◌, List, [], ◌∷◌,
  ◌++◌, ◌==◌, inl, inr, if◌then◌else◌, arith, Bool-cases, List-cases, Option-cases,
}
use user_level_thread_librar.Machine.{
  Machine, State, in_join, after, switched, is_terminated, swap_thread,
}
use user_level_thread_librar.Scheduler.{taken}
use user_level_thread_librar.Scheduler.Queue.{pick_next-cons}
use user_level_thread_librar.Abstract.{Channel, same, on_join, on_signal, Moves, done}
use user_level_thread_librar.Refinement.{view, waits_in, joiners, IsSound}
use user_level_thread_librar.Refinement.Park.{park_on}
use user_level_thread_librar.Lifecycle.Join.Claim.{join_terminated-Moves}
use user_level_thread_librar.Lifecycle.Join.{
  link, begin_join, join_block, join_linked, join_chain, is_head, thread_join,
}

module _ (target : ℕ) (retval : Option ℕ) (slot : ℕ) (becomes_head : Bool) (s : Machine)
    (i : IsSound s) (free : (s.threads target).joined_by ≡ none)
    (lives : is_terminated (s.threads target).state ≡ false)
    (other : (target == s.current_thread) ≡ false) (next : ℕ) (q : List ℕ)
    (picked : s.ready_queue ≡ next ∷ q) where
  abbrev cur : ℕ
  cur = s.current_thread

  abbrev linked : Machine
  linked = link target slot becomes_head s

  abbrev parked : Machine
  parked = taken next q (begin_join target linked)

  cur_running : (s.threads cur).state ≡ State.running
  cur_running = ground (arith, i.one_running cur)

  current-linked : linked.current_thread ≡ cur
  unfolding link
  current-linked = ground arith

  ready_queue-linked : (begin_join target linked).ready_queue ≡ next ∷ q
  unfolding link begin_join
  ready_queue-linked = ground (arith, picked)

  joined_by-parked :
      (t : ℕ)
      → (parked.threads t).joined_by ≡ (if t == target then some cur else (s.threads t).joined_by)
  unfolding link begin_join taken
  joined_by-parked t = ground (arith, other)

  state-parked :
      (t : ℕ) → (parked.threads t).state ≡ (if t == cur then State.blocked else (s.threads t).state)
  unfolding link begin_join taken
  state-parked t = ground (arith, other)

  queued-parked :
      (t : ℕ)
      → (parked.threads t).in_ready_queue
        ≡ (if t == next then false else (s.threads t).in_ready_queue)
  unfolding link begin_join taken
  queued-parked t = ground (arith, other)

  context-parked : (t : ℕ) → (parked.threads t).context ≡ (s.threads t).context
  unfolding link begin_join taken
  context-parked t = ground (arith, other)

  signal-parked : (t : ℕ) → (parked.threads t).waiting_for_signal ≡ (s.threads t).waiting_for_signal
  unfolding link begin_join taken
  signal-parked t = ground (arith, other)

  mutexes-parked : (k : ℕ) → parked.mutexes k ≡ s.mutexes k
  unfolding link begin_join taken
  mutexes-parked k = ground arith

  sems-parked : (k : ℕ) → parked.sems k ≡ s.sems k
  unfolding link begin_join taken
  sems-parked k = ground arith

  conds-parked : (k : ℕ) → parked.conds k ≡ s.conds k
  unfolding link begin_join taken
  conds-parked k = ground arith

  joiners-parked :
      (t : ℕ)
      → joiners (parked.threads t) ≡ (if t == target then cur ∷ [] else joiners (s.threads t))
  joiners-parked t = elim (Bool-cases (t == target)) [
    | inl y ↦ ground (arith, state-parked t, joined_by-parked t, lives, other)
    | inr n ↦ ground (arith, state-parked t, joined_by-parked t, cur_running)
  ]

  joiners-target : joiners (s.threads target) ≡ []
  joiners-target = ground (arith, lives, free)

  waits-parked :
      (d : Channel)
      → waits_in parked d ≡ (
          if same d (on_join target) then waits_in s (on_join target) ++ cur ∷ [] else waits_in s d)
  waits-parked (on_join t) = joiners-parked t ∙ rw joiners-target
  waits-parked (on_signal t) = ground (arith, signal-parked t)
  waits-parked (Channel.on_mutex k) = ground (arith, mutexes-parked k)
  waits-parked (Channel.on_sem k) = ground (arith, sems-parked k)
  waits-parked (Channel.on_cond k) = ground (arith, conds-parked k)
  waits-parked Channel.nowhere = refl

  ready_queue-parked : parked.ready_queue ≡ q
  unfolding taken
  ready_queue-parked = refl

  join_parks-Moves : Moves (view s) (view (swap_thread cur next (in_join target retval) parked))
  join_parks-Moves =
      park_on (in_join target retval) (on_join target) next s parked i refl
        (picked ∙ ap (λ l. next ∷ l) (sym ready_queue-parked)) queued-parked state-parked
        context-parked waits-parked

  state-linked : is_terminated (linked.threads target).state ≡ false
  unfolding link
  state-linked = ground (arith, lives, other)

  swap-parks :
      join_block target retval linked
      ≡ switched (swap_thread parked.current_thread next (in_join target retval) parked)
  unfolding join_block
  swap-parks = rw (pick_next-cons next q (begin_join target linked) ready_queue-linked, join_block)

  current-parked : parked.current_thread ≡ cur
  unfolding link begin_join taken
  current-parked = ground arith

  join_linked-Moves : Moves (view s) (view (after (join_linked target retval linked)))
  unfolding join_linked
  join_linked-Moves =
      rw (state-linked, join_linked)
        (rw (swap-parks) (
          subst (λ t. Moves (view s) (view (swap_thread t next (in_join target retval) parked)))
            (sym current-parked) join_parks-Moves))

join_chain-Moves :
    (target : ℕ) (retval theirs own : Option ℕ) (s : Machine)
    → IsSound s
    → (s.threads target).joined_by ≡ none
    → is_terminated (s.threads target).state ≡ false
    → (target == s.current_thread) ≡ false
    → (next : ℕ) (q : List ℕ) → s.ready_queue ≡ next ∷ q
    → Moves (view s) (view (after (join_chain target retval theirs own s)))
join_chain-Moves target retval none own s i f l o next q e = done
join_chain-Moves target retval (some slot) none s i f l o next q e = done
join_chain-Moves target retval (some slot) (some own) s i f l o next q e =
    elim (Bool-cases (is_head target slot s && own == slot)) [
      | inl c ↦ rw (c, join_chain) done
      | inr n ↦ rw (n, join_chain) (join_linked-Moves target retval slot _ s i f l o next q e)
    ]

-- Whatever the target, `thread_join` is moves of the abstract scheduler if a thread is ready.
pub thread_join-Moves :
    (target retval : Option ℕ) (s : Machine)
    → IsSound s
    → s.ready_queue ≢ []
    → Moves (view s) (view (after (thread_join target retval s)))
unfolding thread_join
thread_join-Moves none retval s i r = done
thread_join-Moves (some target) retval s i r = elim (Option-cases (s.threads target).joined_by) [
  | inr (j, y) ↦ rw (y, thread_join) done
  | inl f ↦ elim (Bool-cases (target == s.current_thread)) [
    | inl m ↦ rw (f, m, thread_join) done
    | inr o ↦ elim (Bool-cases (is_terminated (s.threads target).state)) [
      | inl d ↦ rw (f, o, d, thread_join) (join_terminated-Moves target retval s i)
      | inr l ↦ elim (List-cases s.ready_queue) [
        | inl n ↦ absurd (r n)
        | inr (next, q, e) ↦
            rw (f, o, l, thread_join) (join_chain-Moves target retval _ _ s i f l o next q e)
      ]
    ]
  ]
]
