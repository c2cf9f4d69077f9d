-- ===== src/Scheduler/Bounds.antt =====
-- src/scheduler.c: priorities against THREAD_MIN_PRIORITY and THREAD_MAX_PRIORITY.
use user_level_thread_librar.Base.{
  ℕ, ◌≡◌, refl, ◌∙◌, Option, none, some, true, Bool, ◌&&◌, List, [], ◌∷◌, ◌==◌, ℤ, pos, negsuc,
  leb_ℤ, arith, update, if◌then◌else◌, inl, inr, Bool-cases, List-cases,
}
use user_level_thread_librar.Machine.{
  Policy, fifo, prio, Thread, Machine, Context, in_yield, Outcome, returned, switched, zero_rc,
  after, set_thread, swap_thread, is_ready,
}
use user_level_thread_librar.Scheduler.{
  max_priority, min_priority, thread_scheduler_enqueue, taken, gain, lose, set_priority,
  clamp_priority, age_waiting, age_running, age, keeps_running, requeue, yield_next, yield_then,
  thread_yield, switch_to, thread_yield_to, reposition, outranks_current, yield_if_outranked, rank,
  thread_set_priority,
}
use user_level_thread_librar.Scheduler.Queue.{pick_next-cons}
use user_level_thread_librar.Scheduler.Refinement.{yield_next-nil}

abbrev pub in_range : ℤ → Bool
in_range p = leb_ℤ min_priority p && leb_ℤ p max_priority

abbrev pub IsInRange : (ℕ → Thread) → Type 0
IsInRange th = (t : ℕ) → in_range (th t).priority ≡ true

in_range-clamp_priority : (p : ℤ) → in_range (clamp_priority p) ≡ true
in_range-clamp_priority (pos n) = ground arith
in_range-clamp_priority (negsuc n) = ground arith

in_range-gain : (p : ℤ) → in_range p ≡ true → in_range (gain p) ≡ true
in_range-gain p h = ground (arith, h)

in_range-lose : (p : ℤ) → in_range p ≡ true → in_range (lose p) ≡ true
in_range-lose p h = ground (arith, h)

age_waiting-IsInRange : (q : List ℕ) (th : ℕ → Thread) → IsInRange th → IsInRange (age_waiting q th)
unfolding age_waiting
age_waiting-IsInRange [] th h = h
age_waiting-IsInRange (x ∷ q) th h =
    age_waiting-IsInRange q (update th x (set_priority (gain (th x).priority) (th x)))
      (λ t. ground (arith, h t, in_range-gain (th x).priority (h x)))

age_running-IsInRange :
    (prev : ℕ) (th : ℕ → Thread) → IsInRange th → IsInRange (age_running prev th)
unfolding age_running
age_running-IsInRange prev th h t = ground (arith, h t, in_range-lose (th prev).priority (h prev))

age-IsInRange : (p : Policy) (s : Machine) → IsInRange s.threads → IsInRange (age p s).threads
unfolding age
age-IsInRange fifo s h = h
age-IsInRange prio s h =
    age_running-IsInRange s.current_thread (age_waiting s.ready_queue s.threads)
      (age_waiting-IsInRange s.ready_queue s.threads h)

-- What moves a thread between the queue and the processor leaves its priority.
module _ (p : Policy) (x t : ℕ) (s : Machine) where
  enqueue-priority : ((thread_scheduler_enqueue p x s).threads t).priority ≡ (s.threads t).priority
  unfolding thread_scheduler_enqueue
  enqueue-priority = ground arith

  taken-priority : (q : List ℕ) → ((taken x q s).threads t).priority ≡ (s.threads t).priority
  unfolding taken
  taken-priority q = ground arith

  swap-priority :
      (next : ℕ) (ctx : Context)
      → ((swap_thread x next ctx s).threads t).priority ≡ (s.threads t).priority
  unfolding swap_thread
  swap-priority next ctx = ground arith

requeue-priority :
    (p : Policy) (x t : ℕ) (s : Machine)
    → ((requeue p x s).threads t).priority ≡ (s.threads t).priority
unfolding requeue thread_scheduler_enqueue
requeue-priority p x t s = ground arith

-- The ways on from a picked thread.
abbrev go_on : Policy → Context → ℕ → Machine → Outcome
go_on p ctx next r =
    let prev = r.current_thread in
    if next == prev
    then returned zero_rc r
    else if keeps_running p (r.threads next) (r.threads prev)
    then returned zero_rc (thread_scheduler_enqueue p next r)
    else switched (swap_thread prev next ctx (requeue p prev r))

picked-priority :
    (p : Policy) (ctx : Context) (next t : ℕ) (r : Machine)
    → ((after (go_on p ctx next r)).threads t).priority ≡ (r.threads t).priority
picked-priority p ctx next t r =
    let prev = r.current_thread in
    elim (Bool-cases (next == prev)) [
      | inl a ↦ rw a refl
      | inr a ↦ elim (Bool-cases (keeps_running p (r.threads next) (r.threads prev))) [
        | inl k ↦ rw (a, k) (enqueue-priority p next t r)
        | inr k ↦
            rw (a, k)
              (swap-priority p prev t (requeue p prev r) next ctx ∙ requeue-priority p prev t r)
      ]
    ]

yield_next-priority :
    (p : Policy) (ctx : Context) (s : Machine) (t : ℕ)
    → ((after (yield_next p ctx s)).threads t).priority ≡ (s.threads t).priority
unfolding yield_next
yield_next-priority p ctx s t = elim (List-cases s.ready_queue) [
  | inl e ↦ rw (yield_next-nil p ctx s e) refl
  | inr (next, q, e) ↦
      rw (pick_next-cons next q s e, yield_next)
        (picked-priority p ctx next t (taken next q s) ∙ taken-priority p next t s q)
]

switch_to-priority :
    (p : Policy) (x t : ℕ) (s : Machine)
    → ((switch_to p x s).threads t).priority ≡ (s.threads t).priority
unfolding switch_to thread_scheduler_enqueue swap_thread
switch_to-priority p x t s = ground arith

reposition-priority :
    (p : Policy) (x t : ℕ) (s : Machine)
    → ((reposition p x s).threads t).priority ≡ (s.threads t).priority
unfolding reposition thread_scheduler_enqueue
reposition-priority p x t s = ground arith

yield_then-IsInRange :
    (p : Policy) (s : Machine) → IsInRange s.threads → IsInRange (after (thread_yield p s)).threads
unfolding yield_then
yield_then-IsInRange p s h t =
    rw (yield_next-priority p in_yield (age p s) t) (age-IsInRange p s h t)

yield_to-IsInRange :
    (p : Policy) (target : Option ℕ) (s : Machine)
    → IsInRange s.threads
    → IsInRange (after (thread_yield_to p target s)).threads
unfolding thread_yield_to
yield_to-IsInRange p none s h = h
yield_to-IsInRange p (some x) s h = elim (Bool-cases (is_ready (s.threads x).state)) [
  | inl r ↦ rw (r, thread_yield_to) (λ t. rw (switch_to-priority p x t s) (h t))
  | inr r ↦ rw (r, thread_yield_to) (yield_then-IsInRange p s h)
]

rank-IsInRange :
    (p : Policy) (x : ℕ) (s : Machine)
    → IsInRange s.threads
    → IsInRange (after (rank p x s)).threads
unfolding rank yield_if_outranked
rank-IsInRange fifo x s h = h
rank-IsInRange prio x s h = elim (Bool-cases (is_ready (s.threads x).state)) [
  | inl r ↦
      let v = reposition prio x s in
      let moved : IsInRange v.threads = λ t. rw (reposition-priority prio x t s) (h t) in
      elim (Bool-cases (outranks_current x v)) [
        | inl k ↦ rw (r, k, rank, yield_if_outranked) (yield_to-IsInRange prio (some x) v moved)
        | inr k ↦ rw (r, k, rank, yield_if_outranked) moved
      ]
  | inr r ↦ rw (r, rank) h
]

set_priority-IsInRange :
    (p : Policy) (target : Option ℕ) (n : ℤ) (s : Machine)
    → IsInRange s.threads
    → IsInRange (after (thread_set_priority p target n s)).threads
unfolding thread_set_priority
set_priority-IsInRange p none n s h = h
set_priority-IsInRange p (some x) n s h =
    rank-IsInRange p x (set_thread x (set_priority (clamp_priority n) (s.threads x)) s)
      (λ t. ground (arith, h t, in_range-clamp_priority n))

-- Yield, yield_to and set_priority keep every priority between 0 and 100, for any target, any
-- requested priority and either policy.
pub scheduler_calls-IsInRange :
    (p : Policy) (target : Option ℕ) (n : ℤ) (s : Machine)
    → IsInRange s.threads
    → IsInRange (after (thread_yield p s)).threads
      × IsInRange (after (thread_yield_to p target s)).threads
      × IsInRange (after (thread_set_priority p target n s)).threads
scheduler_calls-IsInRange p target n s h = (
  yield_then-IsInRange p s h,
  yield_to-IsInRange p target s h,
  set_priority-IsInRange p target n s h,
)
