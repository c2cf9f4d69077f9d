-- ===== src/Lifecycle/Exit/Refinement.antt =====
-- src/thread.c: `thread_exit` as moves of the abstract scheduler.
use user_level_thread_librar.Base.{
  ℕ, ◌≡◌, refl, sym, subst, ap, ◌∙◌, none, some, true, false, not, ◌&&◌, List, [], ◌∷◌, ◌==◌, inl,
  inr, if◌then◌else◌, arith, elem, Distinct, List-cases, Option-cases,
}
use user_level_thread_librar.Machine.{Policy, Machine, State, after, switched, cleaned, set_thread}
use user_level_thread_librar.Scheduler.{thread_scheduler_enqueue, revive, taken}
use user_level_thread_librar.Scheduler.Queue.{
  pick_next-cons, pick_next-nil, elem-revive, Distinct-revive,
}
use user_level_thread_librar.Abstract.{
  Channel, same, on_join, on_signal, on_mutex, on_sem, on_cond, nowhere, exits, Moves, done, more,
  wakes, switches,
}
use user_level_thread_librar.Abstract.Preservation.{Moves-Inv}
use user_level_thread_librar.Refinement.{view, waits_in, IsSound}
use user_level_thread_librar.Refinement.Unseen.{Unseen}
use user_level_thread_librar.Refinement.Revive.{Unqueued, revive-Wake}
use user_level_thread_librar.Lifecycle.Process.{thread_switch_to_cleanup}
use user_level_thread_librar.Lifecycle.Exit.Ended.{Ended, ended-Switch, buried}
use user_level_thread_librar.Lifecycle.Exit.{bury, terminate, restore, leave, thread_exit}

module _ (policy : Policy) (retval : ℕ) (s : Machine) (i : IsSound s) where
  abbrev cur : ℕ
  cur = s.current_thread

  -- The state before the joiner is woken.
  abbrev dead : Machine
  dead = bury cur (terminate retval s)

  terminated_view : Unseen (terminate retval s) dead
  terminated_view = buried cur (terminate retval s)

  running_now : (s.threads cur).state ≡ State.running
  running_now = ground (arith, i.one_running cur)

  state-dead :
      (t : ℕ)
      → (dead.threads t).state ≡ (if t == cur then State.terminated else (s.threads t).state)
  unfolding terminate
  state-dead t = terminated_view.state t ∙ ground arith

  queued-dead : (t : ℕ) → (dead.threads t).in_ready_queue ≡ (s.threads t).in_ready_queue
  unfolding terminate
  queued-dead t = terminated_view.queued t ∙ ground arith

  context-dead : (t : ℕ) → (dead.threads t).context ≡ (s.threads t).context
  unfolding terminate
  context-dead t = terminated_view.context t ∙ ground arith

  joined_by-dead : (t : ℕ) → (dead.threads t).joined_by ≡ (s.threads t).joined_by
  unfolding terminate
  joined_by-dead t = terminated_view.joined_by t ∙ ground arith

  signal-dead : (t : ℕ) → (dead.threads t).waiting_for_signal ≡ (s.threads t).waiting_for_signal
  unfolding terminate
  signal-dead t = terminated_view.signal t ∙ ground arith

  ready_queue-dead : dead.ready_queue ≡ s.ready_queue
  unfolding terminate
  ready_queue-dead = terminated_view.ready_queue

  current-dead : dead.current_thread ≡ cur
  unfolding terminate
  current-dead = terminated_view.current

  mutexes-dead : (k : ℕ) → dead.mutexes k ≡ s.mutexes k
  unfolding terminate
  mutexes-dead k = ap (λ f. f k) terminated_view.mutexes

  sems-dead : (k : ℕ) → dead.sems k ≡ s.sems k
  unfolding terminate
  sems-dead k = ap (λ f. f k) terminated_view.sems

  conds-dead : (k : ℕ) → dead.conds k ≡ s.conds k
  unfolding terminate
  conds-dead k = ap (λ f. f k) terminated_view.conds

  waits-dead : (d : Channel) → waits_in dead d ≡ (if same d (on_join cur) then [] else waits_in s d)
  unfolding terminate
  waits-dead (on_mutex k) = rw terminated_view.mutexes
  waits-dead (on_sem k) = rw terminated_view.sems
  waits-dead (on_cond k) = rw terminated_view.conds
  waits-dead (on_join t) = ground (arith, state-dead t, joined_by-dead t)
  waits-dead (on_signal t) = ground (arith, signal-dead t)
  waits-dead nowhere = refl

  -- Nobody waits for the thread.
  module _ (alone : (s.threads cur).joined_by ≡ none) where
    waits-alone : (d : Channel) → waits_in dead d ≡ waits_in s d
    waits-alone (on_join t) = ground (arith, waits-dead (on_join t), alone)
    waits-alone d = ground (arith, waits-dead d)

    alone-Ended : Ended s dead
    alone-Ended = record {
      current = current-dead;
      distinct = subst (λ l. Distinct l) (sym ready_queue-dead) i.ready_distinct;
      members = λ t. rw ready_queue-dead;
      queued = queued-dead;
      state = state-dead;
      context = context-dead;
      waits = λ d t. rw (waits-alone d);
      waits_distinct = λ d. rw (waits-alone d) (i.waits_distinct d);
    }

    leave-alone : leave policy retval s ≡ dead
    unfolding leave
    leave-alone = rw (joined_by-dead cur ∙ alone)

  -- A joiner is blocked until the thread ends.
  module _ (j : ℕ) (joined : (s.threads cur).joined_by ≡ some j) where
    abbrev unjoined : Machine
    unjoined = set_thread cur (record (s.threads cur) { joined_by = none }) s

    abbrev woken : Machine
    woken = revive policy j unjoined

    joins : elem j (waits_in s (on_join cur)) ≡ true
    joins = ground (arith, joined, running_now)

    j_blocked : (s.threads j).state ≡ State.blocked
    j_blocked = ground (arith, joins, i.waiting (on_join cur) j)

    j_unqueued : (s.threads j).in_ready_queue ≡ false
    j_unqueued = ground (arith, j_blocked, i.queued_ready j)

    j_apart : (j == cur) ≡ false
    j_apart = ground (arith, j_blocked, running_now)

    unjoined-waits :
        (d : Channel) (t : ℕ)
        → elem t (waits_in unjoined d)
          ≡ (elem t (waits_in s d) && not (t == j && same d (on_join cur)))
    unjoined-waits (on_join k) t = ground (arith, joined)
    unjoined-waits (on_signal k) t = ground arith
    unjoined-waits d t = ground arith

    unjoined-Distinct : (d : Channel) → Distinct (waits_in unjoined d)
    unjoined-Distinct (on_join k) = ground (arith, i.waits_distinct (on_join k))
    unjoined-Distinct (on_signal k) = ground (arith, i.waits_distinct (on_signal k))
    unjoined-Distinct d = i.waits_distinct d

    unjoined-Unqueued : Unqueued (on_join cur) j s unjoined
    unjoined-Unqueued = record {
      waiter = joins;
      current = refl;
      ready_queue = refl;
      state = λ t. ground arith;
      queued = λ t. ground arith;
      context = λ t. ground arith;
      waits = unjoined-waits;
      waits_distinct = unjoined-Distinct;
    }

    woken-Moves : Moves (view s) (view woken)
    woken-Moves = more done (wakes (on_join cur) j (revive-Wake policy i unjoined-Unqueued))

    leave-joined : leave policy retval s ≡ revive policy j dead
    unfolding leave
    leave-joined = rw (joined_by-dead cur ∙ joined)

    j_unqueued_dead : (dead.threads j).in_ready_queue ≡ false
    j_unqueued_dead = queued-dead j ∙ j_unqueued

    j_out : elem j dead.ready_queue ≡ false
    j_out = rw ready_queue-dead (i.ready_queued j ∙ j_unqueued)

    current-woken : woken.current_thread ≡ cur
    unfolding revive thread_scheduler_enqueue
    current-woken = ground (arith, j_unqueued)

    waits-joined : (d : Channel) → waits_in (revive policy j dead) d ≡ waits_in woken d
    unfolding revive thread_scheduler_enqueue
    waits-joined (on_mutex k) = ground (arith, mutexes-dead k, j_unqueued, j_unqueued_dead)
    waits-joined (on_sem k) = ground (arith, sems-dead k, j_unqueued, j_unqueued_dead)
    waits-joined (on_cond k) = ground (arith, conds-dead k, j_unqueued, j_unqueued_dead)
    waits-joined (on_join t) =
        ground
          (arith, state-dead t, joined_by-dead t, j_unqueued, j_unqueued_dead, j_apart, j_blocked)
    waits-joined (on_signal t) = ground (arith, signal-dead t, j_unqueued, j_unqueued_dead)
    waits-joined nowhere = refl

    joined-Ended : Ended woken (revive policy j dead)
    unfolding revive thread_scheduler_enqueue
    joined-Ended = record {
      current = ground (arith, current-dead, j_unqueued, j_unqueued_dead);
      distinct =
          Distinct-revive policy j dead j_unqueued_dead j_out
            (subst (λ l. Distinct l) (sym ready_queue-dead) i.ready_distinct);
      members = λ t. ground (
        arith,
        elem-revive policy j dead j_unqueued_dead t,
        elem-revive policy j unjoined (ground (arith, j_unqueued)) t,
        ready_queue-dead,
      );
      queued = λ t. ground (arith, queued-dead t, j_unqueued, j_unqueued_dead);
      state = λ t. ground (arith, state-dead t, j_unqueued, j_unqueued_dead, j_apart);
      context = λ t. ground (arith, context-dead t, j_unqueued, j_unqueued_dead);
      waits = λ d t. rw (waits-joined d);
      waits_distinct = λ d. rw (waits-joined d) ((Moves-Inv woken-Moves i).waits_distinct d);
    }

  -- The end of a thread is the wake-up of its joiner, if it has one, and a switch.
  exit-Moves :
      (next : ℕ) (q : List ℕ)
      → (leave policy retval s).ready_queue ≡ next ∷ q
      → Moves (view s) (view (restore next (taken next q (leave policy retval s))))
  exit-Moves next q picked = elim (Option-cases (s.threads cur).joined_by) [
    | inl n ↦ more done (
        switches exits
          (ended-Switch i (subst (Ended s) (sym (leave-alone n)) (alone-Ended n)) next q picked))
    | inr (j, y) ↦ more (woken-Moves j y) (
        switches exits (
          ended-Switch (Moves-Inv (woken-Moves j y) i)
            (subst (Ended (woken j y)) (sym (leave-joined j y)) (joined-Ended j y)) next q picked))
  ]

  thread_exit-picked :
      (next : ℕ) (q : List ℕ)
      → (leave policy retval s).ready_queue ≡ next ∷ q
      → thread_exit policy retval s ≡ switched (restore next (taken next q (leave policy retval s)))
  unfolding thread_exit
  thread_exit-picked next q e = rw (pick_next-cons next q (leave policy retval s) e, thread_exit)

  thread_exit-last :
      (leave policy retval s).ready_queue ≡ []
      → thread_exit policy retval s ≡ cleaned (thread_switch_to_cleanup (leave policy retval s))
  unfolding thread_exit
  thread_exit-last e = rw (pick_next-nil (leave policy retval s) e, thread_exit)

-- If another thread goes on, the end of the running thread is moves of the abstract scheduler.
pub thread_exit-Moves :
    (policy : Policy) (retval : ℕ) (s t : Machine)
    → IsSound s
    → thread_exit policy retval s ≡ switched t
    → Moves (view s) (view t)
thread_exit-Moves policy retval s t i e = elim (List-cases (leave policy retval s).ready_queue) [
  | inl n ↦ absurd (cc (thread_exit-last policy retval s i n, e))
  | inr (next, q, p) ↦
      subst (λ u. Moves (view s) (view u))
        (ap after (sym (thread_exit-picked policy retval s i next q p) ∙ e))
        (exit-Moves policy retval s i next q p)
]
