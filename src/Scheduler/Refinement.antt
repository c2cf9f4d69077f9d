-- ===== src/Scheduler/Refinement.antt =====
-- src/scheduler.c: `thread_yield` as moves of the abstract scheduler.
use user_level_thread_librar.Base.{
  ℕ, ◌≡◌, subst, sym, ap, ◌∙◌, true, false, ◌||◌, List, [], ◌∷◌, ◌==◌, inl, inr, if◌then◌else◌,
  arith, elem, Distinct, Bool-cases, List-cases, ℤ,
}
use user_level_thread_librar.Machine.{
  Policy, Machine, ready, running, Context, Outcome, after, returned, switched, swap_thread,
  zero_rc,
}
use user_level_thread_librar.Scheduler.{
  thread_scheduler_enqueue, revive, taken, age, keeps_running, requeue, yield_next, yield_then,
}
use user_level_thread_librar.Scheduler.Queue.{
  pick_next-cons, pick_next-nil, elem-revive, Distinct-revive, elem-enqueue, Distinct-enqueue,
}
use user_level_thread_librar.Scheduler.Ageing.{age-Unseen}
use user_level_thread_librar.Abstract.{
  Channel, Stay, Moves, done, more, stays, switches, yields, nowhere,
}
use user_level_thread_librar.Abstract.Preservation.{Moves-trans, Moves-Inv}
use user_level_thread_librar.Refinement.{view, waits_in, channel_of, IsSound}
use user_level_thread_librar.Refinement.Unseen.{Unseen-Moves}
use user_level_thread_librar.Refinement.Park.{Stay-refl}
use user_level_thread_librar.Refinement.Swap.{Left, swap-Switch}

module _ (policy : Policy) (next : ℕ) (q : List ℕ) (s : Machine) (i : IsSound s)
    (picked : s.ready_queue ≡ next ∷ q) where
  abbrev cur : ℕ
  cur = s.current_thread

  split : Distinct (next ∷ q)
  split = subst (λ l. Distinct l) picked i.ready_distinct

  next_queued : (s.threads next).in_ready_queue ≡ true
  next_queued = ground (arith, i.ready_queued next, picked)

  next_ready : (s.threads next).state ≡ ready
  next_ready = ground (arith, next_queued, i.queued_ready next)

  cur_running : (s.threads cur).state ≡ running
  cur_running = ground (arith, i.one_running cur)

  cur_unqueued : (s.threads cur).in_ready_queue ≡ false
  cur_unqueued = ground (arith, i.queued_ready cur, cur_running)

  apart : (next == cur) ≡ false
  apart = ground (arith, next_ready, cur_running)

  cur_out : elem cur q ≡ false
  cur_out = ground (arith, i.ready_queued cur, cur_unqueued, picked)

  -- `next` goes back to the queue.
  abbrev pub put_back : Machine
  put_back = thread_scheduler_enqueue policy next (taken next q s)

  pub next_taken : ((taken next q s).threads next).in_ready_queue ≡ false
  unfolding taken
  next_taken = ground arith

  elem-put_back : (t : ℕ) → elem t put_back.ready_queue ≡ (elem t q || t == next)
  unfolding taken
  elem-put_back = elem-enqueue policy next (taken next q s) next_taken

  Distinct-put_back : Distinct put_back.ready_queue
  unfolding taken
  Distinct-put_back = Distinct-enqueue policy next (taken next q s) next_taken split.0 split.1

  waits-put_back : (d : Channel) → waits_in put_back d ≡ waits_in s d
  unfolding thread_scheduler_enqueue taken
  waits-put_back (Channel.on_join t) = ground arith
  waits-put_back (Channel.on_signal t) = ground arith
  waits-put_back d = ground arith

  put_back-Stay : Stay (view s) (view put_back)
  unfolding thread_scheduler_enqueue taken
  put_back-Stay = record {
    current = ground arith;
    ready_distinct = Distinct-put_back;
    members = λ t. ground (arith, elem-put_back t, picked);
    queued = λ t. ground (arith, next_queued);
    state = λ t. ground arith;
    channel = λ t b. ground arith;
    waits = λ d t. rw (waits-put_back d);
    waits_distinct = λ d. rw (waits-put_back d) (i.waits_distinct d);
  }

  -- The running thread goes to the queue, and `next` runs.
  pub cur_unqueued_taken : ((taken next q s).threads cur).in_ready_queue ≡ false
  unfolding taken
  cur_unqueued_taken = ground (arith, cur_unqueued)

  abbrev pub resigned : Machine
  resigned = revive policy cur (taken next q s)

  elem-resigned : (t : ℕ) → elem t resigned.ready_queue ≡ (elem t q || t == cur)
  unfolding taken
  elem-resigned = elem-revive policy cur (taken next q s) cur_unqueued_taken

  Distinct-resigned : Distinct resigned.ready_queue
  unfolding taken
  Distinct-resigned = Distinct-revive policy cur (taken next q s) cur_unqueued_taken cur_out split.1

  waits-resigned : (d : Channel) → waits_in resigned d ≡ waits_in s d
  unfolding revive thread_scheduler_enqueue taken
  waits-resigned (Channel.on_join t) = ground (arith, cur_running, cur_unqueued, apart)
  waits-resigned (Channel.on_signal t) = ground (arith, cur_unqueued, apart)
  waits-resigned d = ground (arith, cur_unqueued, apart)

  resigned-Left : Left yields next s resigned
  unfolding revive thread_scheduler_enqueue taken
  resigned-Left = record {
    chosen = ground (arith, picked);
    ready_distinct = Distinct-resigned;
    members = λ t. ground (arith, elem-resigned t, picked, split.0, apart);
    queued = λ t. ground (arith, cur_unqueued, apart);
    state = λ t. ground (arith, cur_unqueued, apart);
    context = λ t. ground (arith, cur_unqueued, apart);
    waits = λ d t. rw (waits-resigned d) (ground arith);
    waits_distinct = λ d. rw (waits-resigned d) (i.waits_distinct d);
  }

  resigned-Moves :
      (ctx : Context)
      → channel_of cur ctx ≡ nowhere
      → Moves (view s) (view (swap_thread cur next ctx resigned))
  resigned-Moves ctx e = more done (switches yields (swap-Switch ctx i resigned-Left e))

  requeue-resigned : requeue policy cur (taken next q s) ≡ resigned
  unfolding requeue revive taken
  requeue-resigned = ground (arith, cur_running, apart)

  -- The two ways on from a picked thread that is not the running one.
  pub yield_picked : Context → Outcome
  yield_picked ctx =
      if keeps_running policy ((taken next q s).threads next) ((taken next q s).threads cur)
      then returned zero_rc put_back
      else switched (swap_thread cur next ctx resigned)

  pub yield_next-picked : (ctx : Context) → yield_next policy ctx s ≡ yield_picked ctx
  unfolding yield_picked yield_next taken
  yield_next-picked ctx =
      rw (pick_next-cons next q s picked, yield_next) (ground (arith, apart, requeue-resigned))

  yield_picked-Moves :
      (ctx : Context)
      → channel_of cur ctx ≡ nowhere
      → Moves (view s) (view (after (yield_picked ctx)))
  unfolding yield_picked
  yield_picked-Moves ctx e =
      elim (Bool-cases
        (keeps_running policy ((taken next q s).threads next) ((taken next q s).threads cur))) [
          | inl k ↦ rw (k, yield_picked) (more done (stays put_back-Stay))
          | inr k ↦ rw (k, yield_picked) (resigned-Moves ctx e)
        ]

  pub yield_picked-kept :
      (ctx : Context)
      → keeps_running policy ((taken next q s).threads next) ((taken next q s).threads cur) ≡ true
      → yield_picked ctx ≡ returned zero_rc put_back
  unfolding yield_picked
  yield_picked-kept ctx k = rw (k, yield_picked)

  pub yield_picked-gone :
      (ctx : Context)
      → keeps_running policy ((taken next q s).threads next) ((taken next q s).threads cur) ≡ false
      → yield_picked ctx ≡ switched (swap_thread cur next ctx resigned)
  unfolding yield_picked
  yield_picked-gone ctx k = rw (k, yield_picked)

pub yield_next-nil :
    (policy : Policy) (ctx : Context) (s : Machine)
    → s.ready_queue ≡ []
    → yield_next policy ctx s ≡ returned zero_rc s
unfolding yield_next
yield_next-nil policy ctx s e = rw (pick_next-nil s e, yield_next)

yield_next-Moves :
    (policy : Policy) (ctx : Context) (s : Machine)
    → IsSound s
    → channel_of s.current_thread ctx ≡ nowhere
    → Moves (view s) (view (after (yield_next policy ctx s)))
unfolding yield_next
yield_next-Moves policy ctx s i c = elim (List-cases s.ready_queue) [
  | inl e ↦ rw (pick_next-nil s e, yield_next) done
  | inr (next, q, e) ↦
      rw (yield_next-picked policy next q s i e ctx) (yield_picked-Moves policy next q s i e ctx c)
]

-- A yield, of the program or inside `thread_create`, is a switch to a ready thread or leaves all
-- threads as they are, after the ageing.
pub yield_then-Moves :
    (policy : Policy) (ctx : Context) (s : Machine)
    → IsSound s
    → ((t : ℕ) → channel_of t ctx ≡ nowhere)
    → Moves (view s) (view (after (yield_then policy ctx s)))
unfolding yield_then
yield_then-Moves policy ctx s i c =
    Moves-trans aged (yield_next-Moves policy ctx (age policy s) (Moves-Inv aged i) (c _))
  where
    aged : Moves (view s) (view (age policy s))
    aged = Unseen-Moves i (age-Unseen policy s)

yield_next-Stay :
    (policy : Policy) (ctx : Context) (s t : Machine) {rc : ℤ}
    → IsSound s
    → yield_next policy ctx s ≡ returned rc t
    → Stay (view s) (view t)
unfolding yield_next
yield_next-Stay policy ctx s t i h = elim (List-cases s.ready_queue) [
  | inl e ↦
      subst (λ u. Stay (view s) (view u)) (ap after (sym (yield_next-nil policy ctx s e) ∙ h))
        (Stay-refl s i)
  | inr (next, q, e) ↦
      let p = sym (yield_next-picked policy next q s i e ctx) ∙ h in
      elim (Bool-cases (
        keeps_running policy ((taken next q s).threads next)
          ((taken next q s).threads s.current_thread))) [
            | inl k ↦
                subst (λ u. Stay (view s) (view u))
                  (ap after (sym (yield_picked-kept policy next q s i e ctx k) ∙ p))
                  (put_back-Stay policy next q s i e)
            | inr k ↦ absurd (cc (yield_picked-gone policy next q s i e ctx k, p))
          ]
]

-- A yield that returns at once has changed no thread's state.
pub yield_then-Stay :
    (policy : Policy) (ctx : Context) (s t : Machine) {rc : ℤ}
    → IsSound s
    → yield_then policy ctx s ≡ returned rc t
    → Stay (view (age policy s)) (view t)
unfolding yield_then
yield_then-Stay policy ctx s t i h =
    yield_next-Stay policy ctx (age policy s) t (Moves-Inv (Unseen-Moves i (age-Unseen policy s)) i)
      h
