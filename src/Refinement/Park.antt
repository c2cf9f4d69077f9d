-- ===== src/Refinement/Park.antt =====
-- The running thread parks: `thread_scheduler_pick_next`, THREAD_BLOCKED, an entry in a queue and a
-- swap, as in the slow paths of the synchronisation files, seen as `Switch`.
use user_level_thread_librar.Base.{
  ℕ, ◌≡◌, refl, subst, false, ◌&&◌, ◌||◌, [], ◌∷◌, ◌++◌, ◌==◌, if◌then◌else◌, arith, elem, Distinct,
}
use user_level_thread_librar.Machine.{Machine, Context, State, swap_thread}
use user_level_thread_librar.Abstract.{Channel, same, parks, Moves, switches, done, more, Stay}
use user_level_thread_librar.Refinement.{view, waits_in, channel_of, IsSound}
use user_level_thread_librar.Refinement.Queues.{snoc_waits, snoc-Distinct}
use user_level_thread_librar.Refinement.Swap.{Left, swap-Switch}

-- `p` is `s` with `next` taken from the ready queue and the running thread in the queue of `c`.
pub record Parked (c : Channel) (next : ℕ) (s p : Machine) : Type 0 where
  pub picked : s.ready_queue ≡ next ∷ p.ready_queue
  pub queued :
      (t : ℕ)
      → (p.threads t).in_ready_queue ≡ (if t == next then false else (s.threads t).in_ready_queue)
  pub state :
      (t : ℕ)
      → (p.threads t).state ≡ (if t == s.current_thread then State.blocked else (s.threads t).state)
  pub context : (t : ℕ) → (p.threads t).context ≡ (s.threads t).context
  pub waits :
      (d : Channel) (t : ℕ)
      → elem t (waits_in p d) ≡ (elem t (waits_in s d) || (t == s.current_thread && same d c))
  pub waits_distinct : (d : Channel) → Distinct (waits_in p d)

module _ {c : Channel} {next : ℕ} {s p : Machine} (i : IsSound s) (k : Parked c next s p) where
  current_unqueued : (s.threads s.current_thread).in_ready_queue ≡ false
  current_unqueued = ground (arith, i.one_running s.current_thread, i.queued_ready s.current_thread)

  queue-Distinct : Distinct (next ∷ p.ready_queue)
  queue-Distinct = subst (λ q. Distinct q) k.picked i.ready_distinct

  members :
      (t : ℕ)
      → elem t p.ready_queue ≡ (
          if t == next
          then false
          else if t == s.current_thread
          then false
          else elem t s.ready_queue)
  members t = rw k.picked (
      ground (
        arith,
        queue-Distinct.0,
        current_unqueued,
        rw k.picked at (i.ready_queued s.current_thread),
      ))

  parked-Left : Left (parks c) next s p
  parked-Left = record {
    chosen = rw k.picked (ground arith);
    ready_distinct = queue-Distinct.1;
    members = members;
    queued = λ t. ground (arith, k.queued t, current_unqueued);
    state = k.state;
    context = k.context;
    waits = k.waits;
    waits_distinct = k.waits_distinct;
  }

  pub park-Moves :
      (ctx : Context)
      → channel_of s.current_thread ctx ≡ c
      → Moves (view s) (view (swap_thread s.current_thread next ctx p))
  park-Moves ctx e = more done (switches (parks c) (swap-Switch ctx i parked-Left e))

-- A parked thread waited nowhere before, so that the entry is a new one.
pub current_not_waiting :
    (s : Machine) (d : Channel) → IsSound s → elem s.current_thread (waits_in s d) ≡ false
current_not_waiting s d i =
    ground (arith, i.waiting d s.current_thread, i.one_running s.current_thread)

-- The queue of a thread that parks, with that thread at its end.
pub park_on :
    (ctx : Context) (c : Channel) (next : ℕ) (s p : Machine)
    → IsSound s
    → channel_of s.current_thread ctx ≡ c
    → s.ready_queue ≡ next ∷ p.ready_queue
    → ((t : ℕ)
        → (p.threads t).in_ready_queue
          ≡ (if t == next then false else (s.threads t).in_ready_queue))
    → ((t : ℕ)
        → (p.threads t).state
          ≡ (if t == s.current_thread then State.blocked else (s.threads t).state))
    → ((t : ℕ) → (p.threads t).context ≡ (s.threads t).context)
    → ((d : Channel)
        → waits_in p d ≡ (if same d c then waits_in s c ++ s.current_thread ∷ [] else waits_in s d))
    → Moves (view s) (view (swap_thread s.current_thread next ctx p))
park_on ctx c next s p i e picked queued state context waits = park-Moves i parked ctx e
  where
    new : elem s.current_thread (waits_in s c) ≡ false
    new = current_not_waiting s c i

    parked : Parked c next s p
    parked = record {
      picked = picked;
      queued = queued;
      state = state;
      context = context;
      waits = snoc_waits c s.current_thread s p i new waits;
      waits_distinct = snoc-Distinct c s.current_thread s p i new waits;
    }

pub Stay-refl : (s : Machine) → IsSound s → Stay (view s) (view s)
Stay-refl s i = record {
  current = refl;
  ready_distinct = i.ready_distinct;
  members = λ t. refl;
  queued = λ t. refl;
  state = λ t. refl;
  channel = λ t h. refl;
  waits = λ c t. refl;
  waits_distinct = i.waits_distinct;
}
