-- ===== src/Gc/Cleanup.antt =====
-- src/thread_gc.c: what the final cleanup gives back.
use user_level_thread_librar.Base.{
  ℕ, suc, ◌+◌, ◌≡◌, refl, ap, ◌∙◌, Option, none, some, Bool, true, is_empty, inl, inr, sym,
  Bool-cases, List-cases, ◌||◌, List, [], ◌∷◌, ◌++◌, is_none, if◌then◌else◌, elem, length,
  length-append, arith, count, count-append, SameItems,
}
use user_level_thread_librar.Machine.{Machine, Thread, StackEntry}
use user_level_thread_librar.Pool.{stack_pool_free_all}
use user_level_thread_librar.Gc.{unmap_stack, free_zombies_from, free_zombies, do_final_cleanup}

-- The mapping of a thread, if it has one.
abbrev pub own_stack : Option ℕ → Thread → List StackEntry
own_stack none th = []
own_stack (some map) th =
    record { map = map; stack = th.stack_base; valgrind_id = th.valgrind_stack_id } ∷ []

-- The stacks of the threads.
abbrev pub stacks_of : (ℕ → Thread) → List ℕ → List StackEntry
stacks_of th [] = []
stacks_of th (t ∷ q) = own_stack (th t).stack_map (th t) ++ stacks_of th q

-- One round of the loop.
abbrev round : ℕ → List ℕ → Machine → Machine
round t q s =
    let r = unmap_stack (s.threads t).stack_map (s.threads t) (record s { zombie_queue = q }) in
    record r { freed = t ∷ r.freed }

-- What a round changes.
record Round (t : ℕ) (q : List ℕ) (s r : Machine) : Type 0 where
  threads : r.threads ≡ s.threads
  zombie_queue : r.zombie_queue ≡ q
  stack_pool : r.stack_pool ≡ s.stack_pool
  freed : r.freed ≡ t ∷ s.freed
  unmapped : r.unmapped ≡ own_stack (s.threads t).stack_map (s.threads t) ++ s.unmapped

unmap_stack-Round :
    (t : ℕ) (q : List ℕ) (s : Machine) (o : Option ℕ)
    → (s.threads t).stack_map ≡ o
    → Round t q s (
        let r = unmap_stack o (s.threads t) (record s { zombie_queue = q }) in
        record r { freed = t ∷ r.freed })
unmap_stack-Round t q s none e = record {
  threads = refl;
  zombie_queue = refl;
  stack_pool = refl;
  freed = refl;
  unmapped = ap (λ o. own_stack o (s.threads t) ++ s.unmapped) (sym e);
}
unmap_stack-Round t q s (some map) e = record {
  threads = refl;
  zombie_queue = refl;
  stack_pool = refl;
  freed = refl;
  unmapped = ap (λ o. own_stack o (s.threads t) ++ s.unmapped) (sym e);
}

-- What the loop changes.
record Freed (q : List ℕ) (s t : Machine) : Type 0 where
  zombie_queue : t.zombie_queue ≡ []
  stack_pool : t.stack_pool ≡ s.stack_pool
  freed : (x : ℕ) → elem x t.freed ≡ (elem x s.freed || elem x q)
  freed_count : length t.freed ≡ length q + length s.freed
  unmapped :
      (test : StackEntry → Bool)
      → count test t.unmapped ≡ count test (stacks_of s.threads q) + count test s.unmapped

unmapped_later :
    (test : StackEntry → Bool) (own stacks before between after : List StackEntry)
    → between ≡ own ++ before
    → count test after ≡ count test stacks + count test between
    → count test after ≡ count test (own ++ stacks) + count test before
unmapped_later test own stacks before between after e h =
    omega (
      arith,
      h,
      ap (count test) e,
      count-append test own before,
      count-append test own stacks,
    )

free_zombies_from-Freed :
    (q : List ℕ) (s : Machine) → s.zombie_queue ≡ q → Freed q s (free_zombies_from q s)
unfolding free_zombies_from
free_zombies_from-Freed [] s e = record {
  zombie_queue = e;
  stack_pool = refl;
  freed = λ x. ground arith;
  freed_count = omega arith;
  unmapped = λ test. omega arith;
}
free_zombies_from-Freed (t ∷ q) s e =
    let h = unmap_stack-Round t q s (s.threads t).stack_map refl in
    let f = free_zombies_from-Freed q (round t q s) h.zombie_queue in
    record {
      zombie_queue = f.zombie_queue;
      stack_pool = f.stack_pool ∙ h.stack_pool;
      freed = λ x. ground (arith, f.freed x, h.freed);
      freed_count = ground (arith, f.freed_count, h.freed);
      unmapped = λ test.
          unmapped_later test (own_stack (s.threads t).stack_map (s.threads t))
            (stacks_of s.threads q) s.unmapped (round t q s).unmapped
            (free_zombies_from q (round t q s)).unmapped h.unmapped
            (f.unmapped test
              ∙ ap (λ th. count test (stacks_of th q) + count test (round t q s).unmapped)
                h.threads);
    }

pub free_zombies-loop :
    (s : Machine)
    → (s.zombie_initialized || is_empty s.zombie_queue) ≡ true
    → free_zombies s ≡ free_zombies_from s.zombie_queue s
unfolding free_zombies free_zombies_from
free_zombies-loop s h =
    let tested = λ (b : Bool). if b then free_zombies_from s.zombie_queue s else s in
    elim (Bool-cases s.zombie_initialized) [
      | inl y ↦ ap tested y
      | inr n ↦ elim (List-cases s.zombie_queue) [
        | inl e ↦ ap tested n ∙ ap (λ q. free_zombies_from q s) (sym e)
        | inr (t, q, e) ↦ absurd (ground (arith, n, e, h))
      ]
    ]

free_zombies-nil : (s : Machine) → s.zombie_queue ≡ [] → free_zombies s ≡ s
unfolding free_zombies free_zombies_from
free_zombies-nil s e = free_zombies-loop s (ground (arith, e)) ∙ ap (λ q. free_zombies_from q s) e

-- The final cleanup empties the zombie queue and the stack pool, frees every zombie once, and
-- unmaps just the pooled stacks and those of the zombies, each once. A second run frees and unmaps
-- nothing, if a queue that was not initialised is empty.
pub do_final_cleanup-frees_all :
    (s : Machine)
    → (s.zombie_initialized || is_empty s.zombie_queue) ≡ true
    → let t = do_final_cleanup s in
      (t.zombie_queue ≡ [])
      × (t.stack_pool ≡ [])
      × ((x : ℕ) → elem x t.freed ≡ (elem x s.freed || elem x s.zombie_queue))
      × (length t.freed ≡ length s.zombie_queue + length s.freed)
      × SameItems t.unmapped
          (s.stack_pool ++ (stacks_of s.threads s.zombie_queue ++ s.unmapped))
      × ((do_final_cleanup t).freed ≡ t.freed)
      × ((do_final_cleanup t).unmapped ≡ t.unmapped)
unfolding do_final_cleanup stack_pool_free_all
do_final_cleanup-frees_all s h =
    let f = free_zombies_from-Freed s.zombie_queue s refl in
    let r = free_zombies_from s.zombie_queue s in
    let t = record r { unmapped = r.stack_pool ++ r.unmapped; stack_pool = [] } in
    rw (free_zombies-loop s h) (
      f.zombie_queue,
      refl,
      f.freed,
      f.freed_count,
      (λ test. omega (
        arith,
        count-append test r.stack_pool r.unmapped,
        f.unmapped test,
        ap (count test) f.stack_pool,
        count-append test s.stack_pool (stacks_of s.threads s.zombie_queue ++ s.unmapped),
        count-append test (stacks_of s.threads s.zombie_queue) s.unmapped,
      )),
      ap (λ m. m.freed) (free_zombies-nil t f.zombie_queue),
      ap (λ m. m.stack_pool ++ m.unmapped) (free_zombies-nil t f.zombie_queue),
    )
