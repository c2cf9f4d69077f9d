-- ===== src/Lifecycle/Exit/Overflow.antt =====
-- src/preemption.c: the SIGSEGV handler as a move of the abstract scheduler.
use user_level_thread_librar.Base.{ℕ, ◌≡◌, refl, sym, ◌∙◌, true, false, inl, inr, arith, Bool-cases}
use user_level_thread_librar.Machine.{Policy, Machine, switched, killed, set_thread}
use user_level_thread_librar.Abstract.{Moves}
use user_level_thread_librar.Abstract.Preservation.{Moves-trans, Moves-Inv}
use user_level_thread_librar.Refinement.{view, IsSound}
use user_level_thread_librar.Refinement.Unseen.{Unseen, Unseen-Moves}
use user_level_thread_librar.Lifecycle.Exit.{in_guard_page, thread_exit, sigsegv_handler}
use user_level_thread_librar.Lifecycle.Exit.Refinement.{thread_exit-Moves}

-- The thread is marked as overflowed.
abbrev pub flagged : Machine → Machine
flagged s =
    let t = s.current_thread in set_thread t (record (s.threads t) { stack_overflow = true }) s

pub flagged-Unseen : (s : Machine) → Unseen s (flagged s)
flagged-Unseen s = record {
  current = refl;
  ready_queue = refl;
  mutexes = refl;
  sems = refl;
  conds = refl;
  state = λ t. ground arith;
  queued = λ t. ground arith;
  context = λ t. ground arith;
  joined_by = λ t. ground arith;
  signal = λ t. ground arith;
}

pub handler_hit :
    (policy : Policy) (fault : ℕ) (s : Machine)
    → in_guard_page (s.threads s.current_thread).stack_map fault ≡ true
    → sigsegv_handler policy fault s ≡ thread_exit policy 0 (flagged s)
unfolding sigsegv_handler
handler_hit policy fault s h = rw (h, sigsegv_handler) refl

pub handler_missed :
    (policy : Policy) (fault : ℕ) (s : Machine)
    → in_guard_page (s.threads s.current_thread).stack_map fault ≡ false
    → sigsegv_handler policy fault s ≡ killed s
unfolding sigsegv_handler
handler_missed policy fault s h = rw (h, sigsegv_handler) refl

-- A fault after which another thread runs ends the thread that made it.
pub sigsegv_handler-Moves :
    (policy : Policy) (fault : ℕ) (s t : Machine)
    → IsSound s
    → sigsegv_handler policy fault s ≡ switched t
    → Moves (view s) (view t)
sigsegv_handler-Moves policy fault s t i h =
    elim (Bool-cases (in_guard_page (s.threads s.current_thread).stack_map fault)) [
      | inl y ↦
          let seen = Unseen-Moves i (flagged-Unseen s) in
          Moves-trans seen (
            thread_exit-Moves policy 0 (flagged s) t (Moves-Inv seen i)
              (sym (handler_hit policy fault s y) ∙ h))
      | inr n ↦ absurd (cc (handler_missed policy fault s n, h))
    ]
