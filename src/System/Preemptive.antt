-- ===== src/System/Preemptive.antt =====
-- The library with ENABLE_PREEMPTION: a process whose mask every call changes, and whose timer may
-- interrupt the program between two calls. The parts of a call that run with SIGVTALRM unblocked, as
-- the allocation in `thread_create`, are not interrupted here.
pub mod Reached
pub mod Masks
pub mod Steps
pub mod Safety
pub mod Faults
use user_level_thread_librar.Base.{
  ℕ, ◌≡◌, ◌-◌, Option, none, some, Bool, true, false, not, ◌&&◌, ◌||◌, List, ℤ, pos, ◌==◌, eqb_ℤ,
  if◌then◌else◌, is_none, update,
}
use user_level_thread_librar.Machine.{
  Policy, Machine, Context, entry, in_yield, in_join, in_lock, in_sem_wait, in_cond_wait,
  in_sigwait, in_create, Outcome, returned, switched, entered, cleaned, killed, after,
}
use user_level_thread_librar.Scheduler.{thread_ready_queue_empty, thread_yield}
use user_level_thread_librar.Signal.{is_signal}
use user_level_thread_librar.Pool.{stack_pool_alloc, reclaim_deferred_stacks_all}
use user_level_thread_librar.Lifecycle.Objects.{thread_alloc}
use user_level_thread_librar.Lifecycle.Create.{initialize, refill_pool}
use user_level_thread_librar.Lifecycle.Exit.{sigsegv_handler}
use user_level_thread_librar.Preemption.{
  Signals, SignalSet, sigvtalrm, sigsegv, preem_block, preem_unblock, init_prem,
  init_stack_overflow_detection, enter_handler,
}
use user_level_thread_librar.System.{
  Call, create, yield, yield_to, set_priority, exit, join, mutex_init, mutex_destroy, mutex_lock,
  mutex_unlock, sem_init, sem_destroy, sem_wait, sem_post, cond_init, cond_destroy, cond_signal,
  cond_broadcast, cond_wait, signal_send, sigwait, run_call, resume, IsOrderly, ResumesOrderly,
}

-- `preemption_handler`, which the process runs on SIGVTALRM.
unfoldable pub preemption_handler : Policy → Machine → Outcome
preemption_handler policy s = thread_yield policy s

-- The address of `preemption_handler`, and the interval that `thread_create` asks for.
abbrev pub handler_address : ℕ
handler_address = 1

abbrev pub interval : ℕ
interval = 100

-- `thread_create` has a structure but no stack, and yields at least once.
abbrev pub waits_for_stack : Option ℕ × Machine → Bool
waits_for_stack (none, s) = false
waits_for_stack (some newth, s) =
    let r = stack_pool_alloc (refill_pool s) in
    is_none r.0 && not (thread_ready_queue_empty (reclaim_deferred_stacks_all r.1))

abbrev pub create_waits : Bool × Machine → Bool
create_waits (false, s) = false
create_waits (true, s) = waits_for_stack (thread_alloc s)

-- The call succeeds.
abbrev pub succeeds : Outcome → Bool
succeeds (returned rc s) = eqb_ℤ rc (pos 0)
succeeds _ = false

-- The call gets to its first `preem_block`: its arguments pass the tests before it.
unfoldable pub reaches_block : Policy → Call → Machine → Bool
reaches_block p (create (some newthread) (some func) arg) s =
    create_waits (initialize s) || succeeds (run_call p (create (some newthread) (some func) arg) s)
reaches_block p (create _ _ arg) s = false
reaches_block p yield s = true
reaches_block p (yield_to t) s = not (is_none t)
reaches_block p (set_priority t n) s = not (is_none t)
reaches_block p (exit retval) s = true
reaches_block p (join none retval) s = false
reaches_block p (join (some t) retval) s =
    is_none (s.threads t).joined_by && not (t == s.current_thread)
reaches_block p (mutex_lock m) s = not (is_none m)
reaches_block p (mutex_unlock m) s = not (is_none m)
reaches_block p (sem_wait m) s = not (is_none m)
reaches_block p (sem_post m) s = not (is_none m)
reaches_block p (cond_wait c m) s = not (is_none c || is_none m)
reaches_block p (cond_signal c) s = not (is_none c)
reaches_block p (cond_broadcast c) s = not (is_none c)
reaches_block p (signal_send t sig) s = not (is_none t) && is_signal sig
reaches_block p (sigwait set sig) s = not (set == 0 || is_none sig)
reaches_block p _ s = false

-- The mask once a call has blocked SIGVTALRM: each return of the code stands after a
-- `preem_unblock`, and each swap before it. The pairs in between leave the same.
abbrev pub ended : Outcome → Signals → Signals
ended (switched s) g = preem_block g
ended (cleaned s) g = preem_block g
ended (killed s) g = preem_block g
ended _ g = preem_unblock (preem_block g)

abbrev pub if_reached : Bool → Outcome → Signals → Signals
if_reached true o g = ended o g
if_reached false o g = g

-- What the first `thread_create` sets up; `granted` is the answer of `sigaltstack`.
unfoldable pub set_up : Bool → Machine → Signals → Signals
set_up granted s g =
    if not s.scheduler_initialized && (initialize s).0
    then init_stack_overflow_detection granted (init_prem handler_address interval g)
    else g

unfoldable pub call_signals : Policy → Bool → Call → Machine → Signals → Signals
call_signals p granted (create (some newthread) (some func) arg) s g =
    let c = create (some newthread) (some func) arg in
    if_reached (reaches_block p c s) (run_call p c s) (set_up granted s g)
call_signals p granted c s g = if_reached (reaches_block p c s) (run_call p c s) g

-- The same of a thread that is resumed after a swap: it unblocks before it returns. Where it blocks
-- again it has unblocked before, but in `thread_sigwait`.
unfoldable pub resume_signals : Outcome → Signals → Signals
resume_signals (returned rc s) g = preem_unblock g
resume_signals (entered s) g = preem_unblock g
resume_signals _ g = preem_block g

-- Which code the process is in: the program's, or the library's at the resumption of a thread.
pub data Phase : Type 0 where
  in_program at_swap over : Phase

abbrev pub phase_of : Outcome → Phase
phase_of (returned rc s) = in_program
phase_of (switched s) = at_swap
phase_of (entered s) = in_program
phase_of (cleaned s) = over
phase_of (killed s) = over

-- `saved_masks` holds the mask of each thread that was interrupted and has not yet returned from
-- the handler.
pub record Process : Type 0 where
  pub machine : Machine
  pub signals : Signals
  pub phase : Phase
  pub saved_masks : ℕ → Option SignalSet

unfoldable pub after_call : Policy → Bool → Call → Process → Process
after_call p granted c x =
    let o = run_call p c x.machine in
    record x {
      machine = after o;
      signals = call_signals p granted c x.machine x.signals;
      phase = phase_of o;
    }

-- An interrupt runs `preemption_handler`. If it returns, the mask is as before; otherwise it is
-- restored when the thread returns from the handler.
abbrev pub interrupted : Outcome → Process → Process
interrupted (switched s) x = record x {
  machine = s;
  signals = preem_block (enter_handler sigvtalrm x.signals);
  phase = at_swap;
  saved_masks = update x.saved_masks x.machine.current_thread (some x.signals.mask);
}
interrupted o x = record x { machine = after o; phase = phase_of o }

unfoldable pub after_interrupt : Policy → Process → Process
after_interrupt p x = interrupted (preemption_handler p x.machine) x

-- A fault. SIGSEGV that is blocked kills the process.
unfoldable pub after_fault : Policy → ℕ → Process → Process
after_fault p fault x =
    if x.signals.mask sigsegv
    then record x { phase = over }
    else (let o = sigsegv_handler p fault x.machine in
        record x {
          machine = after o;
          signals = preem_block (enter_handler sigsegv x.signals);
          phase = phase_of o;
        })

-- The yield of an interrupted thread returns, and then its handler.
abbrev pub restore_mask : Outcome → Option SignalSet → ℕ → Process → Process
restore_mask (returned rc s) (some set) t x = record x {
  signals = record x.signals { mask = set };
  saved_masks = update x.saved_masks t none;
}
restore_mask _ _ t x = x

unfoldable pub after_resume : Policy → Process → Process
after_resume p x =
    let t = x.machine.current_thread in
    let o = resume p x.machine in
    restore_mask o (x.saved_masks t) t
      (record x { machine = after o; signals = resume_signals o x.signals; phase = phase_of o })

pub data PStep (p : Policy) (x : Process) : Process → Type 0 where
  calls :
      (granted : Bool) (c : Call)
      → x.phase ≡ in_program
      → IsOrderly p c x.machine
      → PStep p x (after_call p granted c x)
  interrupts :
      x.phase ≡ in_program → x.signals.mask sigvtalrm ≡ false → PStep p x (after_interrupt p x)
  faults :
      (fault : ℕ) (t : Machine)
      → x.phase ≡ in_program
      → sigsegv_handler p fault x.machine ≡ switched t
      → PStep p x (after_fault p fault x)
  resumes :
      x.phase ≡ at_swap
      → ResumesOrderly p (x.machine.threads x.machine.current_thread).context x.machine
      → PStep p x (after_resume p x)

pub data PReach (p : Policy) (x : Process) : Process → Type 0 where
  here : PReach p x x
  next : {y z : Process} → PReach p x y → PStep p y z → PReach p x z
