-- ===== src/Tests/Results.antt =====
-- The values that calls and resumptions return, with two ready threads.
use user_level_thread_librar.Base.{◌≡◌, true, none, some}
use user_level_thread_librar.Machine.{fifo, in_yield}
use user_level_thread_librar.System.{join, run_call, resume_at}
use user_level_thread_librar.System.Results.{is_code, codes, returns_in}
use user_level_thread_librar.System.Results.All.{all-code}
use user_level_thread_librar.Tests.Runs.{two_ready}

all-code_example :
    (returns_in (codes (join (some 50) none)) (run_call fifo (join (some 50) none) two_ready)
      ≡ true)
    × (returns_in is_code (resume_at fifo in_yield two_ready) ≡ true)
all-code_example = all-code fifo (join (some 50) none) in_yield two_ready
