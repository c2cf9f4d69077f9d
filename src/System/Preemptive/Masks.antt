-- ===== src/System/Preemptive/Masks.antt =====
-- SIGVTALRM while calls, interrupts, faults and resumptions follow one another.
use user_level_thread_librar.Base.{
  ℕ, ◌≡◌, refl, sym, subst, ap, ◌∙◌, inl, inr, some, Bool, true, false, not, ◌&&◌, arith,
  Bool-cases,
}
use user_level_thread_librar.Machine.{
  Machine, Outcome, returned, switched, entered, cleaned, killed,
}
use user_level_thread_librar.Preemption.{
  Signals, SignalSet, sigvtalrm, preem_block, preem_unblock, preem_mask_init, init_prem,
  init_stack_overflow_detection,
}
use user_level_thread_librar.Preemption.Masks.{
  IsArmed, mask-block, mask-unblock, IsArmed-block, IsArmed-unblock, init_prem-IsArmed,
}
use user_level_thread_librar.Lifecycle.Create.{initialize}
use user_level_thread_librar.System.Preemptive.{
  Phase, in_program, at_swap, over, phase_of, Process, handler_address, interval, ended, if_reached,
  set_up, resume_signals,
}

-- SIGVTALRM is not blocked in the program, and blocked across a swap.
abbrev pub Fits : Phase → Bool → Type 0
Fits in_program blocked = blocked ≡ false
Fits at_swap blocked = blocked ≡ true
Fits over blocked = Unit {0}

pub record IsPreemptible (x : Process) : Type 0 where
  pub armed : IsArmed x.signals
  pub fits : Fits x.phase (x.signals.mask sigvtalrm)
  pub saved_free : (t : ℕ) (set : SignalSet) → x.saved_masks t ≡ some set → set sigvtalrm ≡ false

pub block-Fits : (g : Signals) → IsArmed g → (preem_block g).mask sigvtalrm ≡ true
block-Fits g a = mask-block g a sigvtalrm ∙ ground arith

unblock-Fits : (g : Signals) → IsArmed g → (preem_unblock g).mask sigvtalrm ≡ false
unblock-Fits g a = mask-unblock g a sigvtalrm ∙ ground arith

ended-Fits :
    (o : Outcome) (g : Signals) → IsArmed g → Fits (phase_of o) ((ended o g).mask sigvtalrm)
ended-Fits (returned rc s) g a = unblock-Fits (preem_block g) (IsArmed-block g a)
ended-Fits (switched s) g a = block-Fits g a
ended-Fits (entered s) g a = unblock-Fits (preem_block g) (IsArmed-block g a)
ended-Fits (cleaned s) g a = tt
ended-Fits (killed s) g a = tt

ended-IsArmed : (o : Outcome) (g : Signals) → IsArmed g → IsArmed (ended o g)
ended-IsArmed (returned rc s) g a = IsArmed-unblock (preem_block g) (IsArmed-block g a)
ended-IsArmed (switched s) g a = IsArmed-block g a
ended-IsArmed (entered s) g a = IsArmed-unblock (preem_block g) (IsArmed-block g a)
ended-IsArmed (cleaned s) g a = IsArmed-block g a
ended-IsArmed (killed s) g a = IsArmed-block g a

pub if_reached-Fits :
    (b : Bool) (o : Outcome) (g : Signals)
    → (b ≡ false → phase_of o ≡ in_program)
    → IsArmed g
    → g.mask sigvtalrm ≡ false
    → IsArmed (if_reached b o g) × Fits (phase_of o) ((if_reached b o g).mask sigvtalrm)
if_reached-Fits true o g h a f = (ended-IsArmed o g a, ended-Fits o g a)
if_reached-Fits false o g h a f = (a, subst (λ q. Fits q (g.mask sigvtalrm)) (sym (h refl)) f)

pub resume-Fits :
    (o : Outcome) (g : Signals)
    → IsArmed g
    → IsArmed (resume_signals o g) × Fits (phase_of o) ((resume_signals o g).mask sigvtalrm)
unfolding resume_signals
resume-Fits (returned rc s) g a = (IsArmed-unblock g a, unblock-Fits g a)
resume-Fits (switched s) g a = (IsArmed-block g a, block-Fits g a)
resume-Fits (entered s) g a = (IsArmed-unblock g a, unblock-Fits g a)
resume-Fits (cleaned s) g a = (IsArmed-block g a, tt)
resume-Fits (killed s) g a = (IsArmed-block g a, tt)

detection-keeps :
    (granted : Bool) (g : Signals)
    → ((init_stack_overflow_detection granted g).sigvtalrm_mask ≡ g.sigvtalrm_mask)
      × ((init_stack_overflow_detection granted g).mask ≡ g.mask)
unfolding init_stack_overflow_detection
detection-keeps granted g = (ground arith, ground arith)

init_mask : (func us : ℕ) (g : Signals) → (init_prem func us g).mask ≡ g.mask
unfolding init_prem preem_mask_init
init_mask func us g = refl

-- What the first `thread_create` sets up blocks nothing.
pub set_up-IsArmed :
    (granted : Bool) (s : Machine) (g : Signals)
    → IsArmed g
    → IsArmed (set_up granted s g) × ((set_up granted s g).mask ≡ g.mask)
unfolding set_up
set_up-IsArmed granted s g a = elim (Bool-cases (not s.scheduler_initialized && (initialize s).0)) [
  | inr n ↦ rw (n, set_up) (a, refl)
  | inl y ↦
      let i = init_prem handler_address interval g in
      let d = detection-keeps granted i in
      rw (y, set_up)
        (
          (λ n. ap (λ f. f n) d.0 ∙ init_prem-IsArmed handler_address interval g n),
          d.1 ∙ init_mask handler_address interval g,
        )
]
