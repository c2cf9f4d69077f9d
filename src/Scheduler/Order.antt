-- ===== src/Scheduler/Order.antt =====
-- src/scheduler.c under THREAD_SCHED_PRIO: queues in the order of descending priority.
use user_level_thread_librar.Base.{
  ℕ, ◌≡◌, refl, true, Bool, ◌&&◌, List, [], ◌∷◌, ◌==◌, ℤ, leb_ℤ, ltb_ℤ, arith, elem, Distinct,
  if◌then◌else◌, update, inl, inr, Bool-cases, ==→≡,
}
use user_level_thread_librar.Machine.{Thread}
use user_level_thread_librar.Scheduler.{insert_by_priority, gain, set_priority, age_waiting}

-- No thread of the queue has a priority above the bound.
abbrev pub at_most : (ℕ → ℤ) → ℤ → List ℕ → Bool
at_most pr bound [] = true
at_most pr bound (t ∷ q) = leb_ℤ (pr t) bound && at_most pr bound q

abbrev pub descending : (ℕ → ℤ) → List ℕ → Bool
descending pr [] = true
descending pr (t ∷ q) = at_most pr (pr t) q && descending pr q

-- Only the priorities of the queued threads matter.
pub at_most-agree :
    (pr pr' : ℕ → ℤ) (bound : ℤ) (q : List ℕ)
    → ((t : ℕ) → elem t q ≡ true → pr t ≡ pr' t)
    → at_most pr bound q ≡ at_most pr' bound q
at_most-agree pr pr' bound [] h = refl
at_most-agree pr pr' bound (t ∷ q) h =
    ground
      (arith, h t (ground arith), at_most-agree pr pr' bound q (λ x e. h x (ground (arith, e))))

pub descending-agree :
    (pr pr' : ℕ → ℤ) (q : List ℕ)
    → ((t : ℕ) → elem t q ≡ true → pr t ≡ pr' t)
    → descending pr q ≡ descending pr' q
descending-agree pr pr' [] h = refl
descending-agree pr pr' (t ∷ q) h =
    let later : (x : ℕ) → elem x q ≡ true → pr x ≡ pr' x = λ x e. h x (ground (arith, e)) in
    rw (h t (ground arith), at_most-agree pr pr' (pr' t) q later, descending-agree pr pr' q later)
      refl

at_most_mono :
    (pr : ℕ → ℤ) (b c : ℤ) (q : List ℕ)
    → leb_ℤ b c ≡ true
    → at_most pr b q ≡ true
    → at_most pr c q ≡ true
at_most_mono pr b c [] h a = refl
at_most_mono pr b c (t ∷ q) h a = ground (arith, h, a, at_most_mono pr b c q h (ground (arith, a)))

abbrev pub priority : (ℕ → Thread) → ℕ → ℤ
priority th t = (th t).priority

pub at_most-insert :
    (th : ℕ → Thread) (b : ℤ) (t : ℕ) (q : List ℕ)
    → at_most (priority th) b (insert_by_priority th t q)
      ≡ (leb_ℤ (th t).priority b && at_most (priority th) b q)
unfolding insert_by_priority
at_most-insert th b t [] = refl
at_most-insert th b t (c ∷ q) = ground (arith, at_most-insert th b t q)

-- An insertion by priority keeps the order.
pub descending-insert :
    (th : ℕ → Thread) (t : ℕ) (q : List ℕ)
    → descending (priority th) q ≡ true
    → descending (priority th) (insert_by_priority th t q) ≡ true
unfolding insert_by_priority
descending-insert th t [] d = refl
descending-insert th t (c ∷ q) d = elim (Bool-cases (ltb_ℤ (th c).priority (th t).priority)) [
  | inl e ↦ ground (
    arith,
    e,
    d,
    at_most_mono (priority th) (th c).priority (th t).priority q (ground (arith, e))
        (ground (arith, d)),
  )
  | inr e ↦ ground (
    arith,
    e,
    d,
    at_most-insert th (th c).priority t q,
    descending-insert th t q (ground (arith, d)),
  )
]

-- Threads that wait gain alike, up to the maximum.
gain_mono : (a b : ℤ) → leb_ℤ a b ≡ true → leb_ℤ (gain a) (gain b) ≡ true
gain_mono a b h = ground (arith, h)

at_most-gain :
    (pr : ℕ → ℤ) (b : ℤ) (q : List ℕ)
    → at_most pr b q ≡ true
    → at_most (λ t. gain (pr t)) (gain b) q ≡ true
at_most-gain pr b [] h = refl
at_most-gain pr b (t ∷ q) h =
    ground (arith, gain_mono (pr t) b (ground (arith, h)), at_most-gain pr b q (ground (arith, h)))

pub descending-gain :
    (pr : ℕ → ℤ) (q : List ℕ) → descending pr q ≡ true → descending (λ t. gain (pr t)) q ≡ true
descending-gain pr [] h = refl
descending-gain pr (t ∷ q) h =
    ground (
      arith,
      at_most-gain pr (pr t) q (ground (arith, h)),
      descending-gain pr q (ground (arith, h)),
    )

-- The ageing of the queue: each queued thread gains once.
pub age_waiting-priority :
    (q : List ℕ) (th : ℕ → Thread) (t : ℕ)
    → Distinct q
    → (age_waiting q th t).priority ≡ (if elem t q then gain (th t).priority else (th t).priority)
unfolding age_waiting
age_waiting-priority [] th t d = refl
age_waiting-priority (x ∷ q) th t d =
    let th' = update th x (set_priority (gain (th x).priority) (th x)) in
    elim (Bool-cases (t == x)) [
      | inl e ↦ rw (age_waiting-priority q th' t d.1, e, ==→≡ t x e, d.0) refl
      | inr e ↦ rw (age_waiting-priority q th' t d.1, e) refl
    ]
