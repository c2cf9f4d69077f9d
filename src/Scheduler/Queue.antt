-- ===== src/Scheduler/Queue.antt =====
-- src/scheduler.c: which threads the ready queue holds after an insertion, and the invariant that
-- an insertion keeps.
use user_level_thread_librar.Base.{
  ℕ, ◌≡◌, refl, ap, none, some, false, ◌||◌, List, [], ◌∷◌, ◌==◌, arith, elem, elem-snoc, Distinct,
  Distinct-snoc, update,
}
use user_level_thread_librar.Machine.{Policy, fifo, prio, Thread, Machine, ready}
use user_level_thread_librar.Scheduler.{
  insert_by_priority, place, thread_scheduler_pick_next, thread_scheduler_enqueue, revive, taken,
  dequeue,
}

elem-insert :
    (th : ℕ → Thread) (t x : ℕ) (q : List ℕ)
    → elem t (insert_by_priority th x q) ≡ (elem t q || t == x)
unfolding insert_by_priority
elem-insert th t x [] = ground arith
elem-insert th t x (y ∷ q) = ground (arith, elem-insert th t x q)

Distinct-insert :
    (th : ℕ → Thread) (x : ℕ) (q : List ℕ)
    → elem x q ≡ false
    → Distinct q
    → Distinct (insert_by_priority th x q)
unfolding insert_by_priority
Distinct-insert th x [] h d = (refl, tt)
Distinct-insert th x (y ∷ q) h d =
    ground (arith, elem-insert th y x q, Distinct-insert th x q (ground arith) d.1)

pub elem-place :
    (policy : Policy) (th : ℕ → Thread) (t x : ℕ) (q : List ℕ)
    → elem t (place policy th x q) ≡ (elem t q || t == x)
unfolding place
elem-place fifo th t x q = elem-snoc t x q
elem-place prio th t x q = elem-insert th t x q

pub Distinct-place :
    (policy : Policy) (th : ℕ → Thread) (x : ℕ) (q : List ℕ)
    → elem x q ≡ false
    → Distinct q
    → Distinct (place policy th x q)
unfolding place
Distinct-place fifo th x q h d = Distinct-snoc x q h d
Distinct-place prio th x q h d = Distinct-insert th x q h d

pub pick_next-cons :
    (next : ℕ) (q : List ℕ) (s : Machine)
    → s.ready_queue ≡ next ∷ q
    → thread_scheduler_pick_next s ≡ some (next, taken next q s)
unfolding thread_scheduler_pick_next
pick_next-cons next q s e = ap (λ l. dequeue l s) e

pub pick_next-nil : (s : Machine) → s.ready_queue ≡ [] → thread_scheduler_pick_next s ≡ none
unfolding thread_scheduler_pick_next
pick_next-nil s e = ap (λ l. dequeue l s) e

-- Reviving a thread that is not queued adds it to the queue, whatever the policy.
module _ (policy : Policy) (x : ℕ) (r : Machine) (out : (r.threads x).in_ready_queue ≡ false) where
  abbrev pub marked : ℕ → Thread
  marked = update r.threads x (record (r.threads x) { state = ready })

  pub ready_queue-revive : (revive policy x r).ready_queue ≡ place policy marked x r.ready_queue
  unfolding revive thread_scheduler_enqueue
  ready_queue-revive = ground (arith, out)

  pub elem-revive :
      (t : ℕ) → elem t (revive policy x r).ready_queue ≡ (elem t r.ready_queue || t == x)
  elem-revive t = rw ready_queue-revive (elem-place policy marked t x r.ready_queue)

  pub Distinct-revive :
      elem x r.ready_queue ≡ false
      → Distinct r.ready_queue
      → Distinct (revive policy x r).ready_queue
  Distinct-revive h d = rw ready_queue-revive (Distinct-place policy marked x r.ready_queue h d)

-- The same of `thread_scheduler_enqueue` itself.
module _ (policy : Policy) (x : ℕ) (r : Machine) (out : (r.threads x).in_ready_queue ≡ false) where
  pub ready_queue-enqueue :
      (thread_scheduler_enqueue policy x r).ready_queue ≡ place policy r.threads x r.ready_queue
  unfolding thread_scheduler_enqueue
  ready_queue-enqueue = ground (arith, out)

  pub elem-enqueue :
      (t : ℕ)
      → elem t (thread_scheduler_enqueue policy x r).ready_queue ≡ (elem t r.ready_queue || t == x)
  elem-enqueue t = rw ready_queue-enqueue (elem-place policy r.threads t x r.ready_queue)

  pub Distinct-enqueue :
      elem x r.ready_queue ≡ false
      → Distinct r.ready_queue
      → Distinct (thread_scheduler_enqueue policy x r).ready_queue
  Distinct-enqueue h d =
      rw ready_queue-enqueue (Distinct-place policy r.threads x r.ready_queue h d)
