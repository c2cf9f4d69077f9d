-- ===== src/System/Locks/Waiters.antt =====
-- What a blocked thread waits for, in the states that the library reaches.
use user_level_thread_librar.Base.{
  ℕ, ◌≡◌, refl, ◌∙◌, inl, inr, true, false, List, [], ◌∷◌, elem, is_empty, arith, Bool-cases,
}
use user_level_thread_librar.Machine.{Policy, Machine, is_blocked, is_terminated}
use user_level_thread_librar.Abstract.{
  Channel, on_mutex, on_sem, on_cond, on_join, on_signal, nowhere, same,
}
use user_level_thread_librar.Refinement.{IsSound, channel_of, waits_in}
use user_level_thread_librar.System.{Reach}
use user_level_thread_librar.System.Safety.{Reach-IsSound}
use user_level_thread_librar.System.Locks.{IsCoherent, is_available}
use user_level_thread_librar.System.Locks.Calls.{Reach-IsCoherent}

occupied : (x : ℕ) (q : List ℕ) → elem x q ≡ true → is_empty q ≡ false
occupied x [] h = absurd (cc)
occupied x (y ∷ q) h = refl

same_self : (d : Channel) → same d d ≡ true
same_self (on_mutex m) = ground arith
same_self (on_sem m) = ground arith
same_self (on_cond c) = ground arith
same_self (on_join t) = ground arith
same_self (on_signal t) = ground arith
same_self nowhere = refl

-- A thread stands in the queue of the channel that it waits on.
stands :
    (x : ℕ) (s : Machine)
    → IsSound s
    → is_blocked (s.threads x).state ≡ true
    → elem x (waits_in s (channel_of x (s.threads x).context)) ≡ true
stands x s i b =
    let d = channel_of x (s.threads x).context in i.waiting d x ∙ rw (b, same_self d) refl

unavailable :
    (x : ℕ) (d : Channel) (s : Machine)
    → IsCoherent s
    → elem x (waits_in s d) ≡ true
    → is_available s d ≡ false
unavailable x (on_mutex m) s (g, b) h =
    ground (arith, occupied x (s.mutexes m).waiting_queue h, g m)
unavailable x (on_sem m) s (g, b) h = ground (arith, occupied x (s.sems m).waiting_queue h, b m)
unavailable x (on_join t) s i h = elim (Bool-cases (is_terminated (s.threads t).state)) [
  | inl y ↦ absurd (ground (arith, y, h))
  | inr n ↦ n
]
unavailable x (on_cond c) s i h = refl
unavailable x (on_signal t) s i h = refl
unavailable x nowhere s i h = refl

-- From a sound and coherent state, whatever orderly calls, faults and resumptions happen, no thread
-- is blocked on a mutex that is not held, on a semaphore that has units, or on the end of a thread
-- that has ended: no wake-up is lost.
pub Reach-unavailable :
    {p : Policy} {s t : Machine} (x : ℕ)
    → IsSound s
    → IsCoherent s
    → Reach p s t
    → is_blocked (t.threads x).state ≡ true
    → is_available t (channel_of x (t.threads x).context) ≡ false
Reach-unavailable {p} {s} {t} x i c r b =
    unavailable x (channel_of x (t.threads x).context) t (Reach-IsCoherent c r)
      (stands x t (Reach-IsSound i r) b)
