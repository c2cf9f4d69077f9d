-- ===== src/Signal/Lowest.antt =====
-- src/thread_sig.c: which signal `thread_signal_pick_one` finds.
use Prim.Native.Nat.{bit_and}
use user_level_thread_librar.Base.{ℕ, ◌≤◌, ◌<◌, ◌≡◌, ◌≢◌}
use user_level_thread_librar.Signal.{signal_bit}

-- The part of the set that the signal `sig` is: 0 if it is not in the set.
abbrev pub held : ℕ → ℕ → ℕ
held sigset sig = bit_and sigset (signal_bit sig)

-- No signal from `sig` on, up to and without `end`, is in the set.
abbrev pub HoldsNone : ℕ → ℕ → ℕ → Type 0
HoldsNone sigset sig end = (k : ℕ) → sig ≤ k → k < end → held sigset k ≡ 0

-- `n` is the lowest signal of the set from `sig` on, and below `end`.
abbrev pub IsLowest : ℕ → ℕ → ℕ → ℕ → Type 0
IsLowest sigset sig end n = (sig ≤ n) × (n < end) × (held sigset n ≢ 0) × HoldsNone sigset sig n
