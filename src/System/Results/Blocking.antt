-- ===== src/System/Results/Blocking.antt =====
-- What creations, joins and the calls of signals return.
use user_level_thread_librar.Base.{
  ℕ, zero, suc, ◌≡◌, refl, inl, inr, Option, none, some, Bool, true, false, ◌&&◌, ℤ, pos, negsuc,
  ◌==◌, is_none, Bool-cases, List-cases,
}
use user_level_thread_librar.Machine.{
  Policy, Machine, in_create, StackEntry, Creation, Outcome, returned, switched, entered, cleaned,
  killed, is_terminated,
}
use user_level_thread_librar.Scheduler.{yield_then, thread_ready_queue_empty}
use user_level_thread_librar.Scheduler.Queue.{pick_next-cons, pick_next-nil}
use user_level_thread_librar.Signal.{
  is_signal, thread_signal_send, take_signal, available, begin_wait, sigwait_block, sigwait_round,
  thread_sigwait,
}
use user_level_thread_librar.Pool.{stack_pool_alloc, reclaim_deferred_stacks_all}
use user_level_thread_librar.Lifecycle.Objects.{thread_alloc}
use user_level_thread_librar.Lifecycle.Join.{
  join_terminated, join_collect, join_resumed, join_chain, join_linked, join_block, is_head,
  begin_join, thread_join,
}
use user_level_thread_librar.Lifecycle.Create.{
  create_finish, create_slot, create_fail, create_round, create_resumed, create_with,
  create_initialized, retried, if_returned, initialize, thread_create,
}
use user_level_thread_librar.System.Results.{is_code, is_join_code, returns_in}

-- Signals.
pub signal_send-code :
    (p : Policy) (t : Option ℕ) (sig : ℤ) (s : Machine)
    → returns_in is_code (thread_signal_send p t sig s) ≡ true
unfolding thread_signal_send
signal_send-code p none sig s = refl
signal_send-code p (some t) sig s = elim (Bool-cases (is_signal sig)) [
  | inl y ↦ rw (y, thread_signal_send) refl
  | inr n ↦ rw (n, thread_signal_send) refl
]

take_signal-code : (n : ℤ) (sig : ℕ) (s : Machine) → returns_in is_code (take_signal n sig s) ≡ true
take_signal-code (negsuc n) sig s = refl
take_signal-code (pos n) sig s = refl

sigwait_block-code :
    (set sig : ℕ) (s : Machine) → returns_in is_code (sigwait_block set sig s) ≡ true
unfolding sigwait_block
sigwait_block-code set sig s =
    let b = begin_wait s.current_thread set s in
    elim (List-cases b.ready_queue) [
      | inl e ↦ rw (pick_next-nil b e, sigwait_block) refl
      | inr (next, q, e) ↦ rw (pick_next-cons next q b e, sigwait_block) refl
    ]

pub sigwait_round-code :
    (set sig : ℕ) (s : Machine) → returns_in is_code (sigwait_round set sig s) ≡ true
unfolding sigwait_round
sigwait_round-code set sig s = elim (Bool-cases (available set (s.threads s.current_thread) == 0)) [
  | inl y ↦ rw (y, sigwait_round) (sigwait_block-code set sig s)
  | inr n ↦ rw (n, sigwait_round) (take_signal-code _ sig s)
]

pub sigwait-code :
    (set : ℕ) (sig : Option ℕ) (s : Machine) → returns_in is_code (thread_sigwait set sig s) ≡ true
unfolding thread_sigwait
sigwait-code set none s = refl
sigwait-code set (some sig) s = elim (Bool-cases (set == 0)) [
  | inl y ↦ rw (y, thread_sigwait) refl
  | inr n ↦ rw (n, thread_sigwait) (sigwait_round-code set sig s)
]

-- Joins.
pub join_collect-code :
    (target : ℕ) (retval : Option ℕ) (s : Machine)
    → (returns_in is_code (join_collect target retval s) ≡ true)
      × (returns_in is_join_code (join_collect target retval s) ≡ true)
unfolding join_collect
join_collect-code target retval s = elim (Bool-cases (s.threads target).stack_overflow) [
  | inl y ↦ rw (y, join_collect) (refl, refl)
  | inr n ↦ rw (n, join_collect) (refl, refl)
]

pub join_resumed-code :
    (target : ℕ) (retval : Option ℕ) (s : Machine)
    → returns_in is_code (join_resumed target retval s) ≡ true
unfolding join_resumed
join_resumed-code target retval s = (join_collect-code target retval _).0

join_linked-code :
    (target : ℕ) (retval : Option ℕ) (s : Machine)
    → returns_in is_join_code (join_linked target retval s) ≡ true
unfolding join_linked join_block
join_linked-code target retval s = elim (Bool-cases (is_terminated (s.threads target).state)) [
  | inl y ↦ rw (y, join_linked) (join_collect-code target retval s).1
  | inr n ↦
      let b = begin_join target s in
      elim (List-cases b.ready_queue) [
        | inl e ↦ rw (n, join_linked) (rw (pick_next-nil b e, join_block) refl)
        | inr (next, q, e) ↦ rw (n, join_linked) (rw (pick_next-cons next q b e, join_block) refl)
      ]
]

join_chain-code :
    (target : ℕ) (retval slot own : Option ℕ) (s : Machine)
    → returns_in is_join_code (join_chain target retval slot own s) ≡ true
join_chain-code target retval none own s = refl
join_chain-code target retval (some slot) none s = refl
join_chain-code target retval (some slot) (some own) s =
    elim (Bool-cases (is_head target slot s && own == slot)) [
      | inl y ↦ rw y refl
      | inr n ↦ rw n (join_linked-code target retval _)
    ]

pub join-code :
    (target retval : Option ℕ) (s : Machine)
    → returns_in is_join_code (thread_join target retval s) ≡ true
unfolding thread_join join_terminated
join-code none retval s = refl
join-code (some target) retval s = elim (Bool-cases (is_none (s.threads target).joined_by)) [
  | inr j ↦ rw (j, thread_join) refl
  | inl j ↦ elim (Bool-cases (target == s.current_thread)) [
    | inl c ↦ rw (j, c, thread_join) refl
    | inr c ↦ elim (Bool-cases (is_terminated (s.threads target).state)) [
      | inl d ↦ rw (j, c, d, thread_join) refl
      | inr d ↦ rw (j, c, d, thread_join) (join_chain-code target retval _ _ s)
    ]
  ]
]

-- Creations.
create_slot-code :
    (p : Policy) (c : Creation) (e : StackEntry) (r : Option ℕ × Machine)
    → returns_in is_code (create_slot p c e r) ≡ true
create_slot-code p c e (none, s) = refl
create_slot-code p c e (some slot, s) = refl

create_finish-code :
    (p : Policy) (c : Creation) (e : StackEntry) (s : Machine)
    → returns_in is_code (create_finish p c e s) ≡ true
unfolding create_finish
create_finish-code p c e s = create_slot-code p c e _

if_returned-code :
    (o : Outcome) (k : Machine → Outcome)
    → ((t : Machine) → returns_in is_code (k t) ≡ true)
    → returns_in is_code (if_returned o k) ≡ true
if_returned-code (returned rc t) k h = h t
if_returned-code (switched t) k h = refl
if_returned-code (entered t) k h = refl
if_returned-code (cleaned t) k h = refl
if_returned-code (killed t) k h = refl

create_round-code :
    (p : Policy) (left : ℕ) (c : Creation) (r : Option StackEntry × Machine)
    → returns_in is_code (create_round p left c r) ≡ true
unfolding create_round create_fail
create_round-code p zero c (some e, s) = create_finish-code p c e s
create_round-code p (suc left) c (some e, s) = create_finish-code p c e s
create_round-code p zero c (none, s) = refl
create_round-code p (suc left) c (none, s) =
    let r = reclaim_deferred_stacks_all s in
    elim (Bool-cases (thread_ready_queue_empty r)) [
      | inl e ↦ rw e refl
      | inr n ↦ rw n (
          if_returned-code (yield_then p (in_create (retried c)) r)
            (λ t. create_round p left (retried c) (stack_pool_alloc t))
            (λ t. create_round-code p left (retried c) (stack_pool_alloc t)))
    ]

pub create_resumed-code :
    (p : Policy) (c : Creation) (s : Machine) → returns_in is_code (create_resumed p c s) ≡ true
unfolding create_resumed
create_resumed-code p c s = create_round-code p _ c (stack_pool_alloc s)

create_with-code :
    (p : Policy) (n f arg : ℕ) (r : Option ℕ × Machine)
    → returns_in is_code (create_with p n f arg r) ≡ true
create_with-code p n f arg (none, s) = refl
create_with-code p n f arg (some newth, s) = create_resumed-code p _ _

create_initialized-code :
    (p : Policy) (n f arg : ℕ) (r : Bool × Machine)
    → returns_in is_code (create_initialized p n f arg r) ≡ true
create_initialized-code p n f arg (false, s) = refl
create_initialized-code p n f arg (true, s) = create_with-code p n f arg (thread_alloc s)

pub create-code :
    (p : Policy) (n f : Option ℕ) (arg : ℕ) (s : Machine)
    → returns_in is_code (thread_create p n f arg s) ≡ true
unfolding thread_create
create-code p none f arg s = refl
create-code p (some n) none arg s = refl
create-code p (some n) (some f) arg s = create_initialized-code p n f arg (initialize s)
