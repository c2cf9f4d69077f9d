-- ===== src/Signal.antt =====
-- src/thread_sig.c: signals between threads (the build with ENABLE_SIGNAL). A set of signals is an
-- `unsigned int` of 32 bits; signal k is the bit k - 1.
pub mod Lowest
pub mod Wait
pub mod Refinement
use Prim.Native.Nat.{bit_and, bit_or}
use user_level_thread_librar.Base.{
  ℕ, zero, suc, ◌-◌, ◌^◌, ◌%◌, ◌+◌, Option, none, some, Bool, true, false, not, ◌&&◌, ◌||◌, List, ℤ,
  pos, negsuc, pos_part, ltb_ℤ, ◌==◌, if◌then◌else◌,
}
use user_level_thread_librar.Machine.{
  Policy, Machine, Thread, State, in_sigwait, Outcome, returned, switched, set_thread, set_errno,
  store_at, swap_thread, is_blocked, einval, edeadlk, minus_one, zero_rc,
}
use user_level_thread_librar.Scheduler.{thread_scheduler_pick_next, revive}

abbrev pub signal_min : ℤ
signal_min = pos 1

abbrev pub signal_max : ℤ
signal_max = pos 32

abbrev pub word_mod : ℕ
word_mod = 2 ^ 32

-- `1u << (sig - 1)`, for a signal of 1 to 32.
abbrev pub signal_bit : ℕ → ℕ
signal_bit sig = 2 ^ (sig - 1) % word_mod

-- `~bits`
abbrev pub complement : ℕ → ℕ
complement bits = word_mod - 1 - bits

-- The loop of `thread_signal_pick_one`, with the rounds left and the signal of this round.
unfoldable pub pick_from : ℕ → ℕ → ℕ → ℤ
pick_from zero sig sigset = minus_one
pick_from (suc rounds) sig sigset =
    let rest = pick_from rounds (sig + 1) sigset in
    if bit_and sigset (signal_bit sig) == 0 then rest else pos sig

unfoldable pub thread_signal_pick_one : ℕ → ℤ
thread_signal_pick_one sigset = pick_from 32 1 sigset

abbrev pub is_signal : ℤ → Bool
is_signal sig = not (ltb_ℤ sig signal_min || ltb_ℤ signal_max sig)

-- `target` waits in `thread_sigwait` for a set with this bit.
abbrev pub awaits : ℕ → Thread → Bool
awaits bit th =
    is_blocked th.state && th.waiting_for_signal && not (bit_and th.waited_signals bit == 0)

abbrev pub mark_pending : ℕ → ℕ → Machine → Machine
mark_pending target bit s =
    set_thread target
      (record (s.threads target) {
        pending_signals = bit_or (s.threads target).pending_signals bit;
      })
      s

abbrev pub end_wait : ℕ → Machine → Machine
end_wait t s =
    set_thread t (record (s.threads t) { waiting_for_signal = false; waited_signals = 0 }) s

unfoldable pub deliver : Policy → ℕ → ℕ → Machine → Machine
deliver policy target bit s =
    let a = mark_pending target bit s in
    if awaits bit (a.threads target) then revive policy target (end_wait target a) else a

unfoldable pub thread_signal_send : Policy → Option ℕ → ℤ → Machine → Outcome
thread_signal_send policy none sig s = returned minus_one (set_errno einval s)
thread_signal_send policy (some target) sig s =
    if is_signal sig
    then returned zero_rc (deliver policy target (signal_bit (pos_part sig)) s)
    else returned minus_one (set_errno einval s)

-- The signals of the set that a thread can take.
abbrev pub available : ℕ → Thread → ℕ
available set th = bit_and (bit_and th.pending_signals set) (complement th.blocked_signals)

-- The chosen signal is taken and stored in `*sig`.
abbrev pub take_signal : ℤ → ℕ → Machine → Outcome
take_signal (negsuc n) sig s = returned minus_one (set_errno einval s)
take_signal (pos chosen) sig s =
    let th = s.threads s.current_thread in
    let kept = bit_and th.pending_signals (complement (signal_bit chosen)) in
    returned zero_rc (
      store_at (some sig) chosen
        (set_thread s.current_thread (record th { pending_signals = kept }) s))

-- The current thread as it waits for a signal of the set.
unfoldable pub begin_wait : ℕ → ℕ → Machine → Machine
begin_wait t set s =
    set_thread t
      (record (s.threads t) {
        waiting_for_signal = true;
        waited_signals = set;
        state = State.blocked;
      })
      s

-- No runnable thread can send a signal.
unfoldable pub abandon_wait : ℕ → Machine → Machine
abandon_wait t s =
    set_thread t
      (record (s.threads t) {
        waiting_for_signal = false;
        waited_signals = 0;
        state = State.running;
      })
      s

unfoldable pub sigwait_block : ℕ → ℕ → Machine → Outcome
sigwait_block set sig s =
    let prev = s.current_thread in
    elim (thread_scheduler_pick_next (begin_wait prev set s)) [
      | none ↦ returned minus_one (set_errno edeadlk (abandon_wait prev (begin_wait prev set s)))
      | some (next, r) ↦ switched (swap_thread prev next (in_sigwait set sig) r)
    ]

-- One round of the loop of `thread_sigwait`; the next one starts when the thread is resumed.
unfoldable pub sigwait_round : ℕ → ℕ → Machine → Outcome
sigwait_round set sig s =
    let found = available set (s.threads s.current_thread) in
    if found == 0 then sigwait_block set sig s else take_signal (thread_signal_pick_one found) sig s

unfoldable pub thread_sigwait : ℕ → Option ℕ → Machine → Outcome
thread_sigwait set none s = returned minus_one (set_errno einval s)
thread_sigwait set (some sig) s =
    if set == 0 then returned minus_one (set_errno einval s) else sigwait_round set sig s
