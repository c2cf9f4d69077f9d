-- ===== src/Signal/Refinement.antt =====
-- src/thread_sig.c as moves of the abstract scheduler.
use user_level_thread_librar.Base.{
  ℕ, ◌≡◌, refl, ◌∙◌, Option, none, some, true, false, not, ◌&&◌, List, [], ◌∷◌, ◌++◌, ◌==◌, inl,
  inr, if◌then◌else◌, arith, elem, Distinct, Bool-cases, List-cases, ℤ, pos, negsuc,
}
use user_level_thread_librar.Machine.{Policy, Machine, State, after, in_sigwait, swap_thread}
use user_level_thread_librar.Scheduler.{taken}
use user_level_thread_librar.Scheduler.Queue.{pick_next-cons, pick_next-nil}
use user_level_thread_librar.Abstract.{Channel, same, on_signal, on_join, Moves, done, more, wakes}
use user_level_thread_librar.Refinement.{view, waits_in, IsSound}
use user_level_thread_librar.Refinement.Unseen.{Unseen, Unseen-Moves}
use user_level_thread_librar.Refinement.Park.{park_on}
use user_level_thread_librar.Refinement.Revive.{Unqueued, revive-Wake}
use user_level_thread_librar.Signal.{
  awaits, mark_pending, end_wait, deliver, thread_signal_send, is_signal, available, take_signal,
  begin_wait, abandon_wait, sigwait_block, sigwait_round, thread_sigwait,
}

marked-Moves :
    (target bit : ℕ) (s : Machine) → IsSound s → Moves (view s) (view (mark_pending target bit s))
marked-Moves target bit s i = Unseen-Moves i unseen
  where
    unseen : Unseen s (mark_pending target bit s)
    unseen = record {
      current = refl;
      ready_queue = refl;
      mutexes = refl;
      sems = refl;
      conds = refl;
      state = λ t. ground arith;
      queued = λ t. ground arith;
      context = λ t. ground arith;
      joined_by = λ t. ground arith;
      signal = λ t. ground arith;
    }

module _ (target bit : ℕ) (s : Machine) (i : IsSound s)
    (waits_now : awaits bit ((mark_pending target bit s).threads target) ≡ true) where
  abbrev ended : Machine
  ended = end_wait target (mark_pending target bit s)

  ended-waits :
      (d : Channel) (t : ℕ)
      → elem t (waits_in ended d)
        ≡ (elem t (waits_in s d) && not (t == target && same d (on_signal target)))
  ended-waits (on_signal k) t = ground (arith, waits_now)
  ended-waits (on_join k) t = ground arith
  ended-waits d t = ground arith

  ended-Distinct : (d : Channel) → Distinct (waits_in ended d)
  ended-Distinct (on_signal k) = ground (arith, i.waits_distinct (on_signal k))
  ended-Distinct (on_join k) = ground (arith, i.waits_distinct (on_join k))
  ended-Distinct d = i.waits_distinct d

  ended-Unqueued : Unqueued (on_signal target) target s ended
  ended-Unqueued = record {
    waiter = ground (arith, waits_now);
    current = refl;
    ready_queue = refl;
    state = λ t. ground arith;
    queued = λ t. ground arith;
    context = λ t. ground arith;
    waits = ended-waits;
    waits_distinct = ended-Distinct;
  }

deliver-Moves :
    (policy : Policy) (target bit : ℕ) (s : Machine)
    → IsSound s
    → Moves (view s) (view (deliver policy target bit s))
unfolding deliver
deliver-Moves policy target bit s i =
    elim (Bool-cases (awaits bit ((mark_pending target bit s).threads target))) [
      | inl a ↦
          rw (a, deliver)
            (more done (
              wakes (on_signal target) target
                (revive-Wake policy i (ended-Unqueued target bit s i a))))
      | inr n ↦ rw (n, deliver) (marked-Moves target bit s i)
    ]

pub thread_signal_send-Moves :
    (policy : Policy) (target : Option ℕ) (sig : ℤ) (s : Machine)
    → IsSound s
    → Moves (view s) (view (after (thread_signal_send policy target sig s)))
unfolding thread_signal_send
thread_signal_send-Moves policy none sig s i = done
thread_signal_send-Moves policy (some target) sig s i = elim (Bool-cases (is_signal sig)) [
  | inl v ↦ rw (v, thread_signal_send) (deliver-Moves policy target _ s i)
  | inr n ↦ rw (n, thread_signal_send) done
]

take_signal-Moves :
    (chosen : ℤ) (sig : ℕ) (s : Machine)
    → IsSound s
    → Moves (view s) (view (after (take_signal chosen sig s)))
take_signal-Moves (negsuc n) sig s i = done
take_signal-Moves (pos chosen) sig s i = Unseen-Moves i unseen
  where
    unseen : Unseen s (after (take_signal (pos chosen) sig s))
    unseen = record {
      current = refl;
      ready_queue = refl;
      mutexes = refl;
      sems = refl;
      conds = refl;
      state = λ t. ground arith;
      queued = λ t. ground arith;
      context = λ t. ground arith;
      joined_by = λ t. ground arith;
      signal = λ t. ground arith;
    }

module _ (set sig : ℕ) (s : Machine) (i : IsSound s) where
  abbrev cur : ℕ
  cur = s.current_thread

  cur_running : (s.threads cur).state ≡ State.running
  cur_running = ground (arith, i.one_running cur)

  cur_silent : (s.threads cur).waiting_for_signal ≡ false
  cur_silent = ground (arith, i.waiting (on_signal cur) cur, cur_running)

  -- With nobody else to run, the wait is undone.
  abandoned-Moves : Moves (view s) (view (abandon_wait cur (begin_wait cur set s)))
  unfolding abandon_wait begin_wait
  abandoned-Moves = Unseen-Moves i unseen
    where
      unseen : Unseen s (abandon_wait cur (begin_wait cur set s))
      unseen = record {
        current = refl;
        ready_queue = refl;
        mutexes = refl;
        sems = refl;
        conds = refl;
        state = λ t. ground (arith, cur_running);
        queued = λ t. ground arith;
        context = λ t. ground arith;
        joined_by = λ t. ground arith;
        signal = λ t. ground (arith, cur_silent);
      }

  waits-parked :
      (next : ℕ) (q : List ℕ) (d : Channel)
      → waits_in (taken next q (begin_wait cur set s)) d
        ≡ (if same d (on_signal cur) then waits_in s (on_signal cur) ++ cur ∷ [] else waits_in s d)
  unfolding taken begin_wait
  waits-parked next q (on_signal k) = ground (arith, cur_silent)
  waits-parked next q (on_join k) = ground (arith, cur_running)
  waits-parked next q d = ground arith

  sigwait_parks-Moves :
      (next : ℕ) (q : List ℕ)
      → s.ready_queue ≡ next ∷ q
      → Moves
          (view s)
          (view (swap_thread cur next (in_sigwait set sig) (taken next q (begin_wait cur set s))))
  unfolding taken begin_wait
  sigwait_parks-Moves next q e =
      park_on (in_sigwait set sig) (on_signal cur) next s (taken next q (begin_wait cur set s)) i
        refl e (λ t. ground arith) (λ t. ground arith) (λ t. ground arith) (waits-parked next q)

  ready_queue-begin_wait : (begin_wait cur set s).ready_queue ≡ s.ready_queue
  unfolding begin_wait
  ready_queue-begin_wait = refl

  sigwait_block-Moves : Moves (view s) (view (after (sigwait_block set sig s)))
  unfolding sigwait_block
  sigwait_block-Moves = elim (List-cases s.ready_queue) [
    | inl e ↦
        rw (pick_next-nil (begin_wait cur set s) (ready_queue-begin_wait ∙ e), sigwait_block)
          abandoned-Moves
    | inr (next, q, e) ↦
        rw
          (pick_next-cons next q (begin_wait cur set s) (ready_queue-begin_wait ∙ e), sigwait_block)
          (sigwait_parks-Moves next q e)
  ]

  pub sigwait_round-Moves : Moves (view s) (view (after (sigwait_round set sig s)))
  unfolding sigwait_round
  sigwait_round-Moves = elim (Bool-cases (available set (s.threads cur) == 0)) [
    | inl z ↦ rw (z, sigwait_round) sigwait_block-Moves
    | inr n ↦ rw (n, sigwait_round) (take_signal-Moves _ sig s i)
  ]

pub thread_sigwait-Moves :
    (set : ℕ) (sig : Option ℕ) (s : Machine)
    → IsSound s
    → Moves (view s) (view (after (thread_sigwait set sig s)))
unfolding thread_sigwait
thread_sigwait-Moves set none s i = done
thread_sigwait-Moves set (some sig) s i = elim (Bool-cases (set == 0)) [
  | inl z ↦ rw (z, thread_sigwait) done
  | inr n ↦ rw (n, thread_sigwait) (sigwait_round-Moves set sig s i)
]
