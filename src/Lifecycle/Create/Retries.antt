-- ===== src/Lifecycle/Create/Retries.antt =====
-- src/thread.c: the loop of `thread_create` that waits for a stack, over all the resumptions of a call.
use mathlib.Core.WellFounded.{Acc}
use user_level_thread_librar.Base.{
  ℕ, zero, suc, ◌+◌, ◌-◌, ◌≤◌, ◌<◌, ◌≡◌, sym, subst, ◌∙◌, inl, inr, Option, none, some, arith,
  Bool-cases,
}
use user_level_thread_librar.Machine.{
  Context, Policy, Machine, StackEntry, Creation, Outcome, returned, switched, entered, cleaned,
  killed, in_create,
}
use user_level_thread_librar.Scheduler.{yield_then, thread_ready_queue_empty}
use user_level_thread_librar.Scheduler.Leaves.{LeavesAt, yield_then-LeavesAt}
use user_level_thread_librar.Pool.{stack_pool_alloc, reclaim_deferred_stacks_all}
use user_level_thread_librar.Lifecycle.Create.{
  create_finish, create_slot, create_fail, max_alloc_retries, create_round, create_resumed, retried,
  if_returned,
}
use user_level_thread_librar.Lifecycle.Create.Rounds.{allocated, reclaimed}

-- The retries of a call that waits.
abbrev pub retries : Context → ℕ
retries (in_create c) = c.alloc_retries
retries _ = 0

-- The call returns, or it waits with more retries than `low`, and at most `high`.
abbrev pub WaitsBetween : ℕ → ℕ → ℕ → Outcome → Type 0
WaitsBetween low high cur (returned rc t) = Unit {0}
WaitsBetween low high cur (switched t) =
    (low < retries (t.threads cur).context) × (retries (t.threads cur).context ≤ high)
WaitsBetween low high cur _ = ⊥

create_slot-WaitsBetween :
    (policy : Policy) (c : Creation) (e : StackEntry) (o : Option ℕ × Machine) (low high cur : ℕ)
    → WaitsBetween low high cur (create_slot policy c e o)
create_slot-WaitsBetween policy c e (none, s) low high cur = tt
create_slot-WaitsBetween policy c e (some slot, s) low high cur = tt

create_finish-WaitsBetween :
    (policy : Policy) (c : Creation) (e : StackEntry) (s : Machine) (low high cur : ℕ)
    → WaitsBetween low high cur (create_finish policy c e s)
unfolding create_finish
create_finish-WaitsBetween policy c e s low high cur =
    create_slot-WaitsBetween policy c e _ low high cur

weaken :
    (low left cur : ℕ) (o : Outcome)
    → WaitsBetween (low + 1) (low + 1 + left) cur o
    → WaitsBetween low (low + suc left) cur o
weaken low left cur (returned rc t) w = tt
weaken low left cur (switched t) w = (omega (arith, w.0), omega (arith, w.1))
weaken low left cur (entered t) w = w
weaken low left cur (cleaned t) w = w
weaken low left cur (killed t) w = w

create_fail-WaitsBetween :
    (c : Creation) (s : Machine) (low high cur : ℕ) → WaitsBetween low high cur (create_fail c s)
unfolding create_fail
create_fail-WaitsBetween c s low high cur = tt

create_round-WaitsBetween :
    (policy : Policy) (left : ℕ) (c : Creation) (r : Option StackEntry × Machine)
    → WaitsBetween c.alloc_retries
        (c.alloc_retries + left)
        r.1.current_thread
        (create_round policy left c r)
unfolding create_round
create_round-WaitsBetween policy zero c (some e, s) = create_finish-WaitsBetween policy c e s _ _ _
create_round-WaitsBetween policy (suc left) c (some e, s) =
    create_finish-WaitsBetween policy c e s _ _ _
create_round-WaitsBetween policy zero c (none, s) = create_fail-WaitsBetween c _ _ _ _
create_round-WaitsBetween policy (suc left) c (none, s) =
    elim (Bool-cases (thread_ready_queue_empty r)) [
      | inl e ↦ rw e (create_fail-WaitsBetween c r _ _ _)
      | inr n ↦ rw n (
          subst (λ t. WaitsBetween c.alloc_retries (c.alloc_retries + suc left) t (if_returned o k))
            (reclaimed s).current
            (yielded (create_round-WaitsBetween policy left (retried c)) o
              (yield_then-LeavesAt policy ctx r)))
    ]
  where
    r : Machine
    r = reclaim_deferred_stacks_all s

    ctx : Context
    ctx = in_create (retried c)

    o : Outcome
    o = yield_then policy ctx r

    k : Machine → Outcome
    k t = create_round policy left (retried c) (stack_pool_alloc t)

    yielded :
        ((r : Option StackEntry × Machine)
          → WaitsBetween
              (c.alloc_retries + 1)
              (c.alloc_retries + 1 + left)
              r.1.current_thread
              (create_round policy left (retried c) r))
        → (o : Outcome) → LeavesAt ctx r.current_thread o
        → WaitsBetween c.alloc_retries
            (c.alloc_retries + suc left)
            r.current_thread
            (if_returned o k)
    yielded ih (returned rc t) e =
        subst (λ u. WaitsBetween c.alloc_retries (c.alloc_retries + suc left) u (k t))
          ((allocated t).current ∙ e)
          (weaken c.alloc_retries left _ (k t) (ih (stack_pool_alloc t)))
    yielded ih (switched t) e =
        subst (λ x. (c.alloc_retries < retries x) × (retries x ≤ c.alloc_retries + suc left))
          (sym e) (omega arith, omega arith)
    yielded ih (entered t) e = absurd e
    yielded ih (cleaned t) e = absurd e
    yielded ih (killed t) e = absurd e

abbrev pub last_retry : Creation → ℕ
last_retry c = c.alloc_retries + (max_alloc_retries - c.alloc_retries)

-- A run of the loop that begins with `c` ends with a switch, and its thread waits with `d`.
pub WaitsAgain : Policy → Creation → Creation → Type 0
WaitsAgain policy d c =
    (s : Machine) × (t : Machine) × (create_resumed policy c s ≡ switched t)
    × ((t.threads s.current_thread).context ≡ in_create d)

create_resumed-WaitsBetween :
    (policy : Policy) (c : Creation) (s : Machine)
    → WaitsBetween c.alloc_retries (last_retry c) s.current_thread (create_resumed policy c s)
unfolding create_resumed
create_resumed-WaitsBetween policy c s =
    subst (λ t. WaitsBetween c.alloc_retries (last_retry c) t (create_resumed policy c s))
      (allocated s).current
      (create_round-WaitsBetween policy (max_alloc_retries - c.alloc_retries) c
        (stack_pool_alloc s))

more_retries :
    (policy : Policy) (c d : Creation)
    → WaitsAgain policy d c
    → (c.alloc_retries < d.alloc_retries) × (d.alloc_retries ≤ last_retry c)
unfolding WaitsAgain
more_retries policy c d (s, t, e, w) =
    let b =
      subst (λ o. WaitsBetween c.alloc_retries (last_retry c) s.current_thread o) e
        (create_resumed-WaitsBetween policy c s) in
    subst (λ x. (c.alloc_retries < retries x) × (retries x ≤ last_retry c)) w b

within :
    (policy : Policy) (n : ℕ) (c : Creation)
    → max_alloc_retries - c.alloc_retries ≤ n
    → Acc (WaitsAgain policy) c
within policy zero c b =
    Acc.intro c (λ d w. let m = more_retries policy c d w in absurd (omega (arith, m.0, m.1, b)))
within policy (suc n) c b =
    Acc.intro c
      (λ d w. let m = more_retries policy c d w in within policy n d (omega (arith, m.0, m.1, b)))

-- Whatever other threads do while a call of `thread_create` waits for a stack, it waits finitely
-- often: each of its runs returns, or leaves its thread waiting with more retries, at most
-- 4096 if there were not more before.
pub create_resumed-terminates :
    (policy : Policy) (c : Creation)
    → Acc (WaitsAgain policy) c
      × ((s : Machine)
          → WaitsBetween c.alloc_retries
              (last_retry c)
              s.current_thread
              (create_resumed policy c s))
create_resumed-terminates policy c = (
  within policy (max_alloc_retries - c.alloc_retries) c (omega arith),
  create_resumed-WaitsBetween policy c,
)
