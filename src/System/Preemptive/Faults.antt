-- ===== src/System/Preemptive/Faults.antt =====
-- Two faults of different threads, one after the other.
use user_level_thread_librar.Base.{ℕ, ◌≡◌, refl, ◌∙◌, none, some, true, false, arith}
use user_level_thread_librar.Machine.{
  Policy, Machine, Outcome, returned, switched, entered, cleaned, killed,
}
use user_level_thread_librar.Preemption.{
  Signals, sigsegv, preem_block, preem_unblock, overflow_action, enter_handler,
}
use user_level_thread_librar.Preemption.Masks.{IsArmed, IsArmed-block, mask-block, mask-unblock}
use user_level_thread_librar.Lifecycle.Exit.{sigsegv_handler}
use user_level_thread_librar.System.{resume}
use user_level_thread_librar.System.Preemptive.{
  at_swap, over, Process, resume_signals, restore_mask, after_fault, after_resume,
}

module _ (g : Signals) (a : IsArmed g) (b : g.mask sigsegv ≡ true) where
  blocked-block : (preem_block g).mask sigsegv ≡ true
  blocked-block = mask-block g a sigsegv ∙ ground (arith, b)

  blocked-unblock : (preem_unblock g).mask sigsegv ≡ true
  blocked-unblock = mask-unblock g a sigsegv ∙ ground (arith, b)

  blocked-resume : (o : Outcome) → (resume_signals o g).mask sigsegv ≡ true
  unfolding resume_signals
  blocked-resume (returned rc s) = blocked-unblock
  blocked-resume (switched s) = blocked-block
  blocked-resume (entered s) = blocked-unblock
  blocked-resume (cleaned s) = blocked-block
  blocked-resume (killed s) = blocked-block

kept-none : (o : Outcome) (t : ℕ) (x : Process) → restore_mask o none t x ≡ x
kept-none (returned rc s) t x = refl
kept-none (switched s) t x = refl
kept-none (entered s) t x = refl
kept-none (cleaned s) t x = refl
kept-none (killed s) t x = refl

fault_blocked :
    (p : Policy) (fault : ℕ) (x : Process)
    → x.signals.mask sigsegv ≡ true
    → after_fault p fault x ≡ record x { phase = over }
unfolding after_fault
fault_blocked p fault x b = rw (b, after_fault) refl

fault_handled :
    (p : Policy) (fault : ℕ) (s : Machine) (x : Process)
    → x.signals.mask sigsegv ≡ false
    → sigsegv_handler p fault x.machine ≡ switched s
    → after_fault p fault x ≡ record x {
      machine = s;
      signals = preem_block (enter_handler sigsegv x.signals);
      phase = at_swap;
    }
unfolding after_fault
fault_handled p fault s x b h = rw (b, h, after_fault) refl

-- Once the handler has run the thread that goes on has SIGSEGV blocked.
resumed-blocks :
    (p : Policy) (x : Process)
    → IsArmed x.signals
    → x.signals.mask sigsegv ≡ true
    → x.saved_masks x.machine.current_thread ≡ none
    → (after_resume p x).signals.mask sigsegv ≡ true
unfolding after_resume
resumed-blocks p x a b n = rw (n, kept-none) (blocked-resume x.signals a b (resume p x.machine))

-- With the handler installed, a thread overflows its stack and another runs, which had not been
-- interrupted. SIGSEGV is then still blocked, so that a second overflow is not handled: it ends the
-- process and marks no thread.
pub after_fault-after_fault :
    (p : Policy) (first second : ℕ) (s : Machine) (x : Process)
    → IsArmed x.signals
    → x.signals.actions sigsegv ≡ some overflow_action
    → x.signals.mask sigsegv ≡ false
    → sigsegv_handler p first x.machine ≡ switched s
    → x.saved_masks s.current_thread ≡ none
    → let y = after_resume p (after_fault p first x) in
      after_fault p second y ≡ record y { phase = over }
after_fault-after_fault p first second s x a i b h n =
    let g : Signals = enter_handler sigsegv x.signals in
    let m : Process = record x { machine = s; signals = preem_block g; phase = at_swap } in
    let e : g.mask sigsegv ≡ true = rw i (ground arith) in
    fault_blocked p second (after_resume p (after_fault p first x)) (
      rw (fault_handled p first s x b h)
        (resumed-blocks p m (IsArmed-block g a) (blocked-block g a e) n))
