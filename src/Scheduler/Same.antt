-- ===== src/Scheduler/Same.antt =====
-- Changes that leave the ready queue and all priorities.
use user_level_thread_librar.Base.{List, ◌∷◌, ℕ, ◌≡◌, refl, ap, ◌∙◌, arith}
use user_level_thread_librar.Machine.{Thread, Machine, Context, swap_thread, set_thread}
use user_level_thread_librar.Scheduler.{taken}
use user_level_thread_librar.Scheduler.Order.{descending, descending-agree, priority}
use user_level_thread_librar.Scheduler.Priority.{IsOrdered}

pub record SameOrder (s r : Machine) : Type 0 where
  pub priorities : (t : ℕ) → (r.threads t).priority ≡ (s.threads t).priority
  pub ready_queue : r.ready_queue ≡ s.ready_queue

pub SameOrder-refl : (s : Machine) → SameOrder s s
SameOrder-refl s = record { priorities = λ t. refl; ready_queue = refl }

pub SameOrder-trans : {s r u : Machine} → SameOrder s r → SameOrder r u → SameOrder s u
SameOrder-trans a b = record {
  priorities = λ t. b.priorities t ∙ a.priorities t;
  ready_queue = b.ready_queue ∙ a.ready_queue;
}

pub SameOrder-IsOrdered : {s r : Machine} → SameOrder s r → IsOrdered s → IsOrdered r
SameOrder-IsOrdered {s} {r} k o =
    descending-agree (priority r.threads) (priority s.threads) r.ready_queue (λ t e. k.priorities t)
    ∙ ap (λ q. descending (priority s.threads) q) k.ready_queue
    ∙ o

pub set_thread-SameOrder :
    (t : ℕ) (th : Thread) (s : Machine)
    → th.priority ≡ (s.threads t).priority
    → SameOrder s (set_thread t th s)
set_thread-SameOrder t th s e = record { priorities = λ x. ground (arith, e); ready_queue = refl }

pub flagged-IsOrdered :
    (t : ℕ) (th : Thread) (s : Machine)
    → th.priority ≡ (s.threads t).priority
    → IsOrdered s
    → IsOrdered (set_thread t th s)
flagged-IsOrdered t th s e o = SameOrder-IsOrdered (set_thread-SameOrder t th s e) o

pub swap_thread-SameOrder :
    (prev next : ℕ) (ctx : Context) (s : Machine) → SameOrder s (swap_thread prev next ctx s)
unfolding swap_thread
swap_thread-SameOrder prev next ctx s = record {
  priorities = λ x. ground arith;
  ready_queue = refl;
}

pub swap-IsOrdered :
    (prev next : ℕ) (ctx : Context) (s : Machine)
    → IsOrdered s
    → IsOrdered (swap_thread prev next ctx s)
swap-IsOrdered prev next ctx s o = SameOrder-IsOrdered (swap_thread-SameOrder prev next ctx s) o

-- The queue without its head.
pub taken-IsOrdered :
    (next : ℕ) (q : List ℕ) (s : Machine)
    → s.ready_queue ≡ next ∷ q
    → IsOrdered s
    → IsOrdered (taken next q s)
unfolding taken
taken-IsOrdered next q s e o =
    descending-agree (priority (taken next q s).threads) (priority s.threads) q
      (λ t m. ground arith)
    ∙ ground (arith, ap (λ l. descending (priority s.threads) l) e, o)
