-- ===== src/System/Results.antt =====
-- include/thread.h, include/thread_sem.h and include/thread_cond.h: what the calls return.
pub mod Calls
pub mod Blocking
pub mod All
use user_level_thread_librar.Base.{Bool, true, ◌||◌, ℤ, pos, eqb_ℤ}
use user_level_thread_librar.Machine.{
  Outcome, returned, switched, entered, cleaned, killed, edeadlk, minus_one, zero_rc,
}
use user_level_thread_librar.System.{Call, join}

-- 0 on success and -1 on error.
abbrev pub is_code : ℤ → Bool
is_code rc = eqb_ℤ rc zero_rc || eqb_ℤ rc minus_one

-- `thread_join` also returns the number of its error.
abbrev pub is_join_code : ℤ → Bool
is_join_code rc = is_code rc || eqb_ℤ rc (pos edeadlk)

abbrev pub codes : Call → ℤ → Bool
codes (join target retval) rc = is_join_code rc
codes c rc = is_code rc

-- If the outcome is a return, its value passes the test.
abbrev pub returns_in : (ℤ → Bool) → Outcome → Bool
returns_in test (returned rc s) = test rc
returns_in test (switched s) = true
returns_in test (entered s) = true
returns_in test (cleaned s) = true
returns_in test (killed s) = true
