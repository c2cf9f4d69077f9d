-- ===== src/System/Preemptive/Steps.antt =====
-- What calls, interrupts, faults and resumptions do to the signal mask of a process.
use user_level_thread_librar.Base.{
  ℕ, ◌≡◌, refl, sym, subst, ap, ◌∙◌, inl, inr, Option, none, some, Bool, false, ◌==◌, arith,
  Bool-cases, update,
}
use user_level_thread_librar.Machine.{
  Policy, Machine, Outcome, returned, switched, entered, cleaned, killed, after,
}
use user_level_thread_librar.Preemption.{Signals, SignalSet, sigvtalrm, sigsegv, enter_handler}
use user_level_thread_librar.Preemption.Masks.{IsArmed, IsArmed-block}
use user_level_thread_librar.Lifecycle.Exit.{sigsegv_handler}
use user_level_thread_librar.System.{Call, create, yield, run_call, resume}
use user_level_thread_librar.System.Preemptive.{
  in_program, phase_of, Process, reaches_block, if_reached, set_up, call_signals, resume_signals,
  preemption_handler, interrupted, restore_mask, after_call, after_interrupt, after_fault,
  after_resume, PStep, calls, interrupts, faults, resumes,
}
use user_level_thread_librar.System.Preemptive.Reached.{unreached_returns}
use user_level_thread_librar.System.Preemptive.Masks.{
  Fits, IsPreemptible, block-Fits, if_reached-Fits, resume-Fits, set_up-IsArmed,
}

-- A call other than a creation with a function.
plain :
    (p : Policy) (c : Call) (s : Machine) (g : Signals)
    → IsArmed g
    → g.mask sigvtalrm ≡ false
    → let h = if_reached (reaches_block p c s) (run_call p c s) g in
      IsArmed h × Fits (phase_of (run_call p c s)) (h.mask sigvtalrm)
plain p c s g a free =
    if_reached-Fits (reaches_block p c s) (run_call p c s) g (unreached_returns p c s) a free

call-Fits :
    (p : Policy) (granted : Bool) (c : Call) (s : Machine) (g : Signals)
    → IsArmed g
    → g.mask sigvtalrm ≡ false
    → IsArmed (call_signals p granted c s g)
      × Fits (phase_of (run_call p c s)) ((call_signals p granted c s g).mask sigvtalrm)
unfolding call_signals
call-Fits p granted (create (some n) (some f) arg) s g a free =
    let c = create (some n) (some f) arg in
    let u = set_up-IsArmed granted s g a in
    if_reached-Fits (reaches_block p c s) (run_call p c s) (set_up granted s g)
      (unreached_returns p c s) u.0 (ap (λ m. m sigvtalrm) u.1 ∙ free)
call-Fits p granted (create none f arg) s g a free = plain p (create none f arg) s g a free
call-Fits p granted (create (some n) none arg) s g a free =
    plain p (create (some n) none arg) s g a free
call-Fits p granted yield s g a free = plain p yield s g a free
call-Fits p granted (Call.yield_to t) s g a free = plain p (Call.yield_to t) s g a free
call-Fits p granted (Call.set_priority t n) s g a free = plain p (Call.set_priority t n) s g a free
call-Fits p granted (Call.exit r) s g a free = plain p (Call.exit r) s g a free
call-Fits p granted (Call.join t r) s g a free = plain p (Call.join t r) s g a free
call-Fits p granted (Call.mutex_init m) s g a free = plain p (Call.mutex_init m) s g a free
call-Fits p granted (Call.mutex_destroy m) s g a free = plain p (Call.mutex_destroy m) s g a free
call-Fits p granted (Call.mutex_lock m) s g a free = plain p (Call.mutex_lock m) s g a free
call-Fits p granted (Call.mutex_unlock m) s g a free = plain p (Call.mutex_unlock m) s g a free
call-Fits p granted (Call.sem_init m v) s g a free = plain p (Call.sem_init m v) s g a free
call-Fits p granted (Call.sem_destroy m) s g a free = plain p (Call.sem_destroy m) s g a free
call-Fits p granted (Call.sem_wait m) s g a free = plain p (Call.sem_wait m) s g a free
call-Fits p granted (Call.sem_post m) s g a free = plain p (Call.sem_post m) s g a free
call-Fits p granted (Call.cond_init m) s g a free = plain p (Call.cond_init m) s g a free
call-Fits p granted (Call.cond_destroy m) s g a free = plain p (Call.cond_destroy m) s g a free
call-Fits p granted (Call.cond_signal m) s g a free = plain p (Call.cond_signal m) s g a free
call-Fits p granted (Call.cond_broadcast m) s g a free = plain p (Call.cond_broadcast m) s g a free
call-Fits p granted (Call.cond_wait c m) s g a free = plain p (Call.cond_wait c m) s g a free
call-Fits p granted (Call.signal_send t n) s g a free = plain p (Call.signal_send t n) s g a free
call-Fits p granted (Call.sigwait set n) s g a free = plain p (Call.sigwait set n) s g a free

call-IsPreemptible :
    (p : Policy) (granted : Bool) (c : Call) (x : Process)
    → x.phase ≡ in_program
    → IsPreemptible x
    → IsPreemptible (after_call p granted c x)
unfolding after_call
call-IsPreemptible p granted c x e i =
    let f =
      call-Fits p granted c x.machine x.signals i.armed
        (subst (λ q. Fits q (x.signals.mask sigvtalrm)) e i.fits) in
    record { armed = f.0; fits = f.1; saved_free = i.saved_free }

abbrev vtalrm_in : Option SignalSet → Bool
vtalrm_in none = false
vtalrm_in (some set) = set sigvtalrm

-- A mask that is saved at an interrupt does not block SIGVTALRM.
saved-interrupt :
    (x : Process)
    → x.signals.mask sigvtalrm ≡ false
    → IsPreemptible x
    → (t : ℕ) (set : SignalSet)
    → update x.saved_masks x.machine.current_thread (some x.signals.mask) t ≡ some set
    → set sigvtalrm ≡ false
saved-interrupt x free i t set e = elim (Bool-cases (t == x.machine.current_thread)) [
  | inl y ↦ ground (arith, y, free, ap vtalrm_in e)
  | inr n ↦ i.saved_free t set (ground (arith, n, e))
]

interrupted-IsPreemptible :
    (o : Outcome) (x : Process)
    → x.signals.mask sigvtalrm ≡ false
    → IsPreemptible x
    → IsPreemptible (interrupted o x)
interrupted-IsPreemptible (returned rc s) x free i = record {
  armed = i.armed;
  fits = free;
  saved_free = i.saved_free;
}
interrupted-IsPreemptible (switched s) x free i = record {
  armed = IsArmed-block (enter_handler sigvtalrm x.signals) i.armed;
  fits = block-Fits (enter_handler sigvtalrm x.signals) i.armed;
  saved_free = saved-interrupt x free i;
}
interrupted-IsPreemptible (entered s) x free i = record {
  armed = i.armed;
  fits = free;
  saved_free = i.saved_free;
}
interrupted-IsPreemptible (cleaned s) x free i = record {
  armed = i.armed;
  fits = tt;
  saved_free = i.saved_free;
}
interrupted-IsPreemptible (killed s) x free i = record {
  armed = i.armed;
  fits = tt;
  saved_free = i.saved_free;
}

fault-IsPreemptible :
    (p : Policy) (fault : ℕ) (t : Machine) (x : Process)
    → sigsegv_handler p fault x.machine ≡ switched t
    → IsPreemptible x
    → IsPreemptible (after_fault p fault x)
unfolding after_fault
fault-IsPreemptible p fault t x e i = elim (Bool-cases (x.signals.mask sigsegv)) [
  | inl b ↦ rw (b, after_fault) (record { armed = i.armed; fits = tt; saved_free = i.saved_free })
  | inr b ↦
      rw (b, e, after_fault)
        (record {
          armed = IsArmed-block (enter_handler sigsegv x.signals) i.armed;
          fits = block-Fits (enter_handler sigsegv x.signals) i.armed;
          saved_free = i.saved_free;
        })
]

restore-IsPreemptible :
    (o : Outcome) (saved : Option SignalSet) (t : ℕ) (x : Process)
    → x.saved_masks t ≡ saved
    → x.phase ≡ phase_of o
    → IsPreemptible x
    → IsPreemptible (restore_mask o saved t x)
restore-IsPreemptible (returned rc s) none t x e f i = i
restore-IsPreemptible (returned rc s) (some set) t x e f i = record {
  armed = i.armed;
  fits = subst (λ q. Fits q (set sigvtalrm)) (sym f) (i.saved_free t set e);
  saved_free = λ k m h. i.saved_free k m (later k m h);
}
  where
    later :
        (k : ℕ) (m : SignalSet) → update x.saved_masks t none k ≡ some m → x.saved_masks k ≡ some m
    later k m h = elim (Bool-cases (k == t)) [
      | inl y ↦ absurd (ground (arith, y, h))
      | inr n ↦ ground (arith, n, h)
    ]
restore-IsPreemptible (switched s) saved t x e f i = i
restore-IsPreemptible (entered s) saved t x e f i = i
restore-IsPreemptible (cleaned s) saved t x e f i = i
restore-IsPreemptible (killed s) saved t x e f i = i

resume-IsPreemptible :
    (p : Policy) (x : Process) → IsPreemptible x → IsPreemptible (after_resume p x)
unfolding after_resume
resume-IsPreemptible p x i =
    let o = resume p x.machine in
    let f = resume-Fits o x.signals i.armed in
    let y : Process = record x {
      machine = after o;
      signals = resume_signals o x.signals;
      phase = phase_of o;
    } in
    restore-IsPreemptible o (x.saved_masks x.machine.current_thread) x.machine.current_thread y refl
      refl (record { armed = f.0; fits = f.1; saved_free = i.saved_free })

pub PStep-IsPreemptible :
    {p : Policy} {x y : Process} → IsPreemptible x → PStep p x y → IsPreemptible y
unfolding after_interrupt
PStep-IsPreemptible {p} {x} i (calls granted c e o) = call-IsPreemptible p granted c x e i
PStep-IsPreemptible {p} {x} i (interrupts e free) =
    interrupted-IsPreemptible (preemption_handler p x.machine) x free i
PStep-IsPreemptible {p} {x} i (faults fault t e h) = fault-IsPreemptible p fault t x h i
PStep-IsPreemptible {p} {x} i (resumes e o) = resume-IsPreemptible p x i
