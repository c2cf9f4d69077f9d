-- ===== src/Refinement/Queues.antt =====
-- A waiting queue that is replaced: by itself, without its first entry, or with one more at the end.
use user_level_thread_librar.Base.{
  ℕ, ◌≡◌, sym, subst, false, not, ◌&&◌, ◌||◌, List, [], ◌∷◌, ◌++◌, ◌==◌, inl, inr, if◌then◌else◌,
  arith, elem, Distinct, elem-snoc, Distinct-snoc, Bool-cases,
}
use user_level_thread_librar.Machine.{Machine}
use user_level_thread_librar.Abstract.{Channel, same, Stay}
use user_level_thread_librar.Abstract.Preservation.{same→≡}
use user_level_thread_librar.Refinement.{view, waits_in, IsSound}
use user_level_thread_librar.Refinement.Revive.{Unqueued}

-- `r` is `s` with the queue `q` on the channel `c`.
pub record Requeued (c : Channel) (q : List ℕ) (s r : Machine) : Type 0 where
  pub current : r.current_thread ≡ s.current_thread
  pub ready_queue : r.ready_queue ≡ s.ready_queue
  pub state : (t : ℕ) → (r.threads t).state ≡ (s.threads t).state
  pub queued : (t : ℕ) → (r.threads t).in_ready_queue ≡ (s.threads t).in_ready_queue
  pub context : (t : ℕ) → (r.threads t).context ≡ (s.threads t).context
  pub waits : (d : Channel) → waits_in r d ≡ (if same d c then q else waits_in s d)

module _ {c : Channel} {s : Machine} (i : IsSound s) where
  pub Requeued-Stay :
      {q : List ℕ} {r : Machine} → Requeued c q s r → waits_in s c ≡ q → Stay (view s) (view r)
  Requeued-Stay {q} {r} h e = record {
    current = h.current;
    ready_distinct = subst (λ q. Distinct q) (sym h.ready_queue) i.ready_distinct;
    members = λ t. rw h.ready_queue;
    queued = h.queued;
    state = h.state;
    channel = λ t b. ground (arith, h.context t);
    waits = λ d t. rw (kept d);
    waits_distinct = λ d. rw (kept d) (i.waits_distinct d);
  }
    where
      kept : (d : Channel) → waits_in r d ≡ waits_in s d
      kept d = ground (arith, h.waits d, same→≡ d c, e)

  pub Requeued-Unqueued :
      {x : ℕ} {q : List ℕ} {r : Machine}
      → Requeued c q s r
      → waits_in s c ≡ x ∷ q
      → Unqueued c x s r
  Requeued-Unqueued {x} {q} {r} h e = record {
    waiter = rw e (ground arith);
    current = h.current;
    ready_queue = h.ready_queue;
    state = h.state;
    queued = h.queued;
    context = h.context;
    waits = waits;
    waits_distinct = distinct;
  }
    where
      both : Distinct (x ∷ q)
      both = subst (λ l. Distinct l) e (i.waits_distinct c)

      waits :
          (d : Channel) (t : ℕ)
          → elem t (waits_in r d) ≡ (elem t (waits_in s d) && not (t == x && same d c))
      waits d t = elim (Bool-cases (same d c)) [
        | inl y ↦ rw (h.waits d, same→≡ d c y, e) (ground (arith, both.0, same→≡ d c))
        | inr n ↦ rw (h.waits d, n) (ground arith)
      ]

      distinct : (d : Channel) → Distinct (waits_in r d)
      distinct d = elim (Bool-cases (same d c)) [
        | inl y ↦ rw (h.waits d, y) both.1
        | inr n ↦ rw (h.waits d, n) (i.waits_distinct d)
      ]

-- One more waiter at the end of a queue.
module _ (c : Channel) (x : ℕ) (s p : Machine) (i : IsSound s) (new : elem x (waits_in s c) ≡ false)
    (h : (d : Channel)
      → waits_in p d ≡ (if same d c then waits_in s c ++ x ∷ [] else waits_in s d)) where
  pub snoc_waits :
      (d : Channel) (t : ℕ)
      → elem t (waits_in p d) ≡ (elem t (waits_in s d) || (t == x && same d c))
  snoc_waits d t = elim (Bool-cases (same d c)) [
    | inl y ↦ ground (arith, h d, same→≡ d c, elem-snoc t x (waits_in s c))
    | inr n ↦ rw (h d, n) (ground arith)
  ]

  pub snoc-Distinct : (d : Channel) → Distinct (waits_in p d)
  snoc-Distinct d = elim (Bool-cases (same d c)) [
    | inl y ↦ rw (h d, y) (Distinct-snoc x (waits_in s c) new (i.waits_distinct c))
    | inr n ↦ rw (h d, n) (i.waits_distinct d)
  ]
