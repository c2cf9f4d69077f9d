-- ===== src/Preemption.antt =====
-- src/preemption.c: the signal mask, the timer and the handlers (the build with ENABLE_PREEMPTION
-- and THREAD_ENABLE_OVERFLOW_DETECTION). What the C library keeps for the process is in `Signals`
-- too: `mask`, `actions`, `timer` and `altstack`.
pub mod Masks
use user_level_thread_librar.Base.{
  ℕ, Option, none, some, Bool, true, false, not, ◌&&◌, ◌||◌, ◌*◌, ◌==◌, if◌then◌else◌, update,
}

-- `sigset_t`, by membership.
abbrev pub SignalSet : Type 0
SignalSet = ℕ → Bool

abbrev pub sigsegv : ℕ
sigsegv = 11

abbrev pub sigvtalrm : ℕ
sigvtalrm = 26

-- `sigemptyset`
abbrev pub no_signals : SignalSet
no_signals n = false

-- `sigaddset`
abbrev pub add_signal : ℕ → SignalSet → SignalSet
add_signal k set n = n == k || set n

-- `sigprocmask(SIG_BLOCK, set, NULL)` and `sigprocmask(SIG_UNBLOCK, set, NULL)`
abbrev pub block : SignalSet → SignalSet → SignalSet
block set mask n = mask n || set n

abbrev pub unblock : SignalSet → SignalSet → SignalSet
unblock set mask n = mask n && not (set n)

-- `func` of `init_prem`, by its address, or `sigsegv_handler`.
pub data Handler : Type 0 where
  function : ℕ → Handler
  overflow_handler : Handler

-- `struct sigaction`
pub record Sigaction : Type 0 where
  pub handler : Handler
  pub sa_mask : SignalSet
  pub sa_restart : Bool
  pub sa_siginfo : Bool
  pub sa_onstack : Bool

-- `struct itimerval`
pub record Itimerval : Type 0 where
  pub it_value_sec : ℕ
  pub it_value_usec : ℕ
  pub it_interval_sec : ℕ
  pub it_interval_usec : ℕ

pub record Signals : Type 0 where
  pub mask : SignalSet
  pub sigvtalrm_mask : SignalSet
  pub actions : ℕ → Option Sigaction
  pub timer : Option Itimerval
  pub altstack : Option ℕ
  pub overflow_detection_initialized : Bool

unfoldable pub preem_block : Signals → Signals
preem_block g = record g { mask = block g.sigvtalrm_mask g.mask }

unfoldable pub preem_unblock : Signals → Signals
preem_unblock g = record g { mask = unblock g.sigvtalrm_mask g.mask }

unfoldable pub preem_mask_init : Signals → Signals
preem_mask_init g = record g { sigvtalrm_mask = add_signal sigvtalrm no_signals }

abbrev pub preemption_action : ℕ → Sigaction
preemption_action func = record {
  handler = function func;
  sa_mask = no_signals;
  sa_restart = true;
  sa_siginfo = false;
  sa_onstack = false;
}

-- `ITIMER_VIRTUAL` is armed last.
unfoldable pub init_prem : ℕ → ℕ → Signals → Signals
init_prem func us g =
    let a = record g { actions = update g.actions sigvtalrm (some (preemption_action func)) } in
    let b = preem_mask_init a in
    record b {
      timer = some (record {
        it_value_sec = 0;
        it_value_usec = us;
        it_interval_sec = 0;
        it_interval_usec = us;
      });
    }

abbrev pub altstack_size : ℕ
altstack_size = 64 * 1024

abbrev pub overflow_action : Sigaction
overflow_action = record {
  handler = overflow_handler;
  sa_mask = add_signal sigvtalrm no_signals;
  sa_restart = false;
  sa_siginfo = true;
  sa_onstack = true;
}

-- `granted` is the answer of `sigaltstack`.
unfoldable pub init_stack_overflow_detection : Bool → Signals → Signals
init_stack_overflow_detection granted g =
    if g.overflow_detection_initialized
    then g
    else if granted
    then record g {
      altstack = some altstack_size;
      actions = update g.actions sigsegv (some overflow_action);
      overflow_detection_initialized = true;
    }
    else g

-- While the handler of a signal runs, the signal and those of its `sa_mask` are blocked.
abbrev pub handler_mask : ℕ → Option Sigaction → SignalSet → SignalSet
handler_mask n none mask = mask
handler_mask n (some a) mask = add_signal n (block a.sa_mask mask)

abbrev pub enter_handler : ℕ → Signals → Signals
enter_handler n g = record g { mask = handler_mask n (g.actions n) g.mask }
