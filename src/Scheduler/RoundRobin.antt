-- ===== src/Scheduler/RoundRobin.antt =====
-- src/scheduler.c under THREAD_SCHED_FIFO: the order in which threads run.
use user_level_thread_librar.Base.{
  ℕ, zero, suc, ◌≡◌, refl, sym, subst, ap, ◌∙◌, List, [], ◌∷◌, ◌++◌, length, append_snoc,
  append_between,
}
use user_level_thread_librar.Machine.{fifo, Machine, in_yield, switched, after, swap_thread}
use user_level_thread_librar.Scheduler.{taken, place, age, yield_then, thread_yield}
use user_level_thread_librar.Scheduler.Queue.{ready_queue-revive}
use user_level_thread_librar.Scheduler.Refinement.{
  resigned, cur_unqueued_taken, yield_next-picked, yield_picked-gone, yield_then-Moves,
}
use user_level_thread_librar.Abstract.Preservation.{Moves-Inv}
use user_level_thread_librar.Refinement.{IsSound}

module _ (next : ℕ) (q : List ℕ) (s : Machine) (i : IsSound s) (e : s.ready_queue ≡ next ∷ q) where
  abbrev gone : Machine
  gone = swap_thread s.current_thread next in_yield (resigned fifo next q s i e)

  yields_to_next : thread_yield fifo s ≡ switched gone
  unfolding yield_then age
  yields_to_next =
      yield_next-picked fifo next q s i e in_yield
      ∙ yield_picked-gone fifo next q s i e in_yield refl

  gone_queue : gone.ready_queue ≡ q ++ s.current_thread ∷ []
  unfolding swap_thread taken place
  gone_queue =
      ready_queue-revive fifo s.current_thread (taken next q s)
        (cur_unqueued_taken fifo next q s i e)

  gone_current : gone.current_thread ≡ next
  unfolding swap_thread
  gone_current = refl

-- Under FIFO a yield with a nonempty ready queue switches to the head of the queue and puts the
-- thread that yields at the tail.
pub yield-rotates :
    (next : ℕ) (q : List ℕ) (s : Machine)
    → IsSound s
    → s.ready_queue ≡ next ∷ q
    → (t : Machine) × (thread_yield fifo s ≡ switched t)
      × (t.current_thread ≡ next)
      × (t.ready_queue ≡ q ++ s.current_thread ∷ [])
yield-rotates next q s i e = (
  gone next q s i e,
  yields_to_next next q s i e,
  gone_current next q s i e,
  gone_queue next q s i e,
)

-- Each thread that runs yields at once, so many times.
unfoldable pub yields : ℕ → Machine → Machine
yields zero s = s
yields (suc n) s = yields n (after (thread_yield fifo s))

after_one :
    (next : ℕ) (q : List ℕ) (s : Machine)
    → IsSound s
    → s.ready_queue ≡ next ∷ q
    → let t = after (thread_yield fifo s) in
      IsSound t × (t.current_thread ≡ next) × (t.ready_queue ≡ q ++ s.current_thread ∷ [])
after_one next q s i e =
    let (t, y, c, r) = yield-rotates next q s i e in
    (
      Moves-Inv (yield_then-Moves fifo in_yield s i (λ x. refl)) i,
      subst (λ o. (after o).current_thread ≡ next) (sym y) c,
      subst (λ o. (after o).ready_queue ≡ q ++ s.current_thread ∷ []) (sym y) r,
    )

-- Under FIFO, if each thread that runs yields at once, the thread at position k of the ready queue
-- runs after k + 1 yields, behind it the later threads, the one that ran first, and those before
-- it.
pub yields-round_robin :
    (before : List ℕ) (x : ℕ) (later : List ℕ) (s : Machine)
    → IsSound s
    → s.ready_queue ≡ before ++ x ∷ later
    → let t = yields (suc (length before)) s in
      (t.current_thread ≡ x) × (t.ready_queue ≡ later ++ s.current_thread ∷ before)
unfolding yields
yields-round_robin [] x later s i e = let (_, c, r) = after_one x later s i e in (c, r)
yields-round_robin (y ∷ before) x later s i e =
    let u = after (thread_yield fifo s) in
    let (j, c, r) = after_one y (before ++ x ∷ later) s i e in
    let ih =
      yields-round_robin before x (later ++ s.current_thread ∷ []) u j
        (r ∙ append_between before x later (s.current_thread ∷ [])) in
    (
      ih.0,
      ih.1
          ∙ append_snoc later s.current_thread (u.current_thread ∷ before)
          ∙ ap (λ z. later ++ s.current_thread ∷ z ∷ before) c,
    )
