-- ===== src/Pool/Conservation.antt =====
-- src/pool.c and src/thread.c: where stacks go that no live thread has.
use user_level_thread_librar.Base.{
  ℕ, zero, suc, ◌+◌, ◌≤◌, ◌<◌, some, Bool, false, leb, ◌≡◌, refl, sym, ◌∙◌, ap, List, [], ◌∷◌, ◌++◌, arith, length, count, count-append, SameItems,
}
use user_level_thread_librar.Machine.{Machine, StackEntry}
use user_level_thread_librar.Pool.{
  max_pooled_stacks, max_deferred_stacks, stack_pool_push, stack_pool_alloc, reclaim_from,
  reclaim_deferred_stacks_all,
}

-- The stacks that no live thread has: deferred, pooled, or given back to the system.
abbrev pub idle_stacks : Machine → List StackEntry
idle_stacks s = s.deferred_stacks ++ (s.stack_pool ++ s.unmapped)

-- Counted with a test.
abbrev pub idle_count : (StackEntry → Bool) → Machine → ℕ
idle_count test s =
    count test s.deferred_stacks + count test s.stack_pool + count test s.unmapped

pub count-idle_stacks :
    (test : StackEntry → Bool) (s : Machine) → count test (idle_stacks s) ≡ idle_count test s
count-idle_stacks test s =
    omega (
      arith,
      count-append test s.deferred_stacks (s.stack_pool ++ s.unmapped),
      count-append test s.stack_pool s.unmapped,
    )

push_kept :
    (test : StackEntry → Bool) (e : StackEntry) (s : Machine)
    → count test (stack_pool_push e s).stack_pool + count test (stack_pool_push e s).unmapped
      ≡ count test (e ∷ []) + count test s.stack_pool + count test s.unmapped
unfolding stack_pool_push
push_kept test e s = ground arith

push_bounded :
    (e : StackEntry) (s : Machine)
    → length s.stack_pool ≤ max_pooled_stacks
    → length (stack_pool_push e s).stack_pool ≤ max_pooled_stacks
unfolding stack_pool_push
push_bounded e s h = ground arith

push_deferred :
    (e : StackEntry) (s : Machine) → (stack_pool_push e s).deferred_stacks ≡ s.deferred_stacks
unfolding stack_pool_push
push_deferred e s = ground arith

-- The loop with a budget for all the stacks that are left.
reclaim_from-keeps :
    (budget : ℕ) (stacks : List StackEntry) (s : Machine)
    → length stacks ≤ budget
    → s.deferred_stacks ≡ stacks
    → length s.stack_pool ≤ max_pooled_stacks
    → let t = reclaim_from budget stacks s in
      (t.deferred_stacks ≡ [])
      × ((test : StackEntry → Bool) → idle_count test t ≡ idle_count test s)
      × (length t.stack_pool ≤ max_pooled_stacks)
unfolding reclaim_from
reclaim_from-keeps zero [] s h d b = (d, λ test. refl, b)
reclaim_from-keeps zero (e ∷ stacks) s h d b = absurd (omega arith)
reclaim_from-keeps (suc budget) [] s h d b = (d, λ test. refl, b)
reclaim_from-keeps (suc budget) (e ∷ stacks) s h d b =
    let r = record s { deferred_stacks = stacks } in
    let ih =
      reclaim_from-keeps budget stacks (stack_pool_push e r) (omega arith) (push_deferred e r)
        (push_bounded e r b) in
    (
      ih.0,
      (λ test. ground (
        arith, ih.1 test, push_kept test e r, ap (count test) (push_deferred e r), ap (count test) d)),
      ih.2,
    )

-- Reclaiming the deferred stacks, at most MAX_DEFERRED_STACKS of them, leaves none deferred. The
-- deferred, pooled and unmapped stacks together are the same as before, each equally often, and the
-- pool keeps its bound MAX_POOLED_STACKS.
pub reclaim_deferred_stacks_all-keeps :
    (s : Machine)
    → length s.deferred_stacks ≤ max_deferred_stacks
    → length s.stack_pool ≤ max_pooled_stacks
    → let t = reclaim_deferred_stacks_all s in
      (t.deferred_stacks ≡ [])
      × SameItems (idle_stacks t) (idle_stacks s)
      × (length t.stack_pool ≤ max_pooled_stacks)
unfolding reclaim_deferred_stacks_all
reclaim_deferred_stacks_all-keeps s h b =
    let t = reclaim_deferred_stacks_all s in
    let kept = reclaim_from-keeps max_deferred_stacks s.deferred_stacks s h refl b in
    (
      kept.0,
      (λ test.
        count-idle_stacks test t ∙ kept.1 test ∙ sym (count-idle_stacks test s)),
      kept.2,
    )

-- A stack that is pushed to a pool that is not full is the one that the next allocation takes, and
-- the pool is then as before.
pub alloc-push :
    (e : StackEntry) (s : Machine)
    → length s.stack_pool < max_pooled_stacks
    → let r = stack_pool_alloc (stack_pool_push e s) in
      (r.0 ≡ some e) × (r.1.stack_pool ≡ s.stack_pool) × (r.1.replies ≡ s.replies)
unfolding stack_pool_alloc stack_pool_push
alloc-push e s h = rw (room, stack_pool_push) (refl, refl, refl)
  where
    room : leb max_pooled_stacks (length s.stack_pool) ≡ false
    room = ground (arith, h)
