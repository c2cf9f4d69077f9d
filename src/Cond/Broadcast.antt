-- ===== src/Cond/Broadcast.antt =====
-- src/thread_cond.c: whom a broadcast wakes, and in which order.
use user_level_thread_librar.Base.{ℕ, ◌≡◌, refl, false, ◌||◌, some, List, [], ◌∷◌, elem, arith}
use user_level_thread_librar.Machine.{Policy, Machine, returned, zero_rc}
use user_level_thread_librar.Scheduler.{revive}
use user_level_thread_librar.Scheduler.Queue.{elem-revive}
use user_level_thread_librar.Cond.{set_cond, wake_all, thread_cond_broadcast}
use user_level_thread_librar.Cond.Refinement.{wake_first-Moves, conds-revive}
use user_level_thread_librar.Abstract.{on_cond}
use user_level_thread_librar.Abstract.Preservation.{Moves-Inv}
use user_level_thread_librar.Refinement.{IsSound}

-- A waiter of the condition is not in the ready queue.
pub waiter_out :
    (c x : ℕ) (q : List ℕ) (s : Machine)
    → IsSound s
    → (s.conds c).waiting_queue ≡ x ∷ q
    → ((set_cond c (record { waiting_queue = q }) s).threads x).in_ready_queue ≡ false
waiter_out c x q s i e = ground (arith, i.waiting (on_cond c) x, i.queued_ready x, e)

-- The waiters that are left when the first one has been woken.
woken-IsSound :
    (p : Policy) (c x : ℕ) (q : List ℕ) (s : Machine)
    → IsSound s
    → (s.conds c).waiting_queue ≡ x ∷ q
    → IsSound (revive p x (set_cond c (record { waiting_queue = q }) s))
woken-IsSound p c x q s i e = Moves-Inv (wake_first-Moves p c (x ∷ q) s i e) i

wake_all-empties :
    (p : Policy) (c : ℕ) (q : List ℕ) (s : Machine)
    → (s.conds c).waiting_queue ≡ q
    → ((wake_all p c q s).conds c).waiting_queue ≡ []
unfolding wake_all
wake_all-empties p c [] s e = e
wake_all-empties p c (x ∷ q) s e = wake_all-empties p c q _ (conds-revive p x c q s)

elem-wake_all :
    (p : Policy) (c t : ℕ) (q : List ℕ) (s : Machine)
    → IsSound s
    → (s.conds c).waiting_queue ≡ q
    → elem t (wake_all p c q s).ready_queue ≡ (elem t s.ready_queue || elem t q)
unfolding wake_all
elem-wake_all p c t [] s i e = ground arith
elem-wake_all p c t (x ∷ q) s i e =
    let r = set_cond c (record { waiting_queue = q }) s in
    ground (
      arith,
      elem-wake_all p c t q (revive p x r) (woken-IsSound p c x q s i e) (conds-revive p x c q s),
      elem-revive p x r (waiter_out c x q s i e) t,
    )

-- A broadcast in a sound state returns 0 and leaves no waiter, and the ready threads are then those
-- that were ready and those that waited on the condition, for either policy.
pub broadcast-wakes_all :
    (p : Policy) (c : ℕ) (s : Machine)
    → IsSound s
    → (t : Machine) × (thread_cond_broadcast p (some c) s ≡ returned zero_rc t)
      × ((t.conds c).waiting_queue ≡ [])
      × ((x : ℕ)
          → elem x t.ready_queue ≡ (elem x s.ready_queue || elem x (s.conds c).waiting_queue))
unfolding thread_cond_broadcast
broadcast-wakes_all p c s i =
    let q = (s.conds c).waiting_queue in
    (wake_all p c q s, refl, wake_all-empties p c q s refl, λ x. elem-wake_all p c x q s i refl)
