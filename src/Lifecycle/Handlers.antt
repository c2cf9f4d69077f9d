-- ===== src/Lifecycle/Handlers.antt =====
-- src/thread.c and src/thread_gc.c: the two handlers that `thread_create` registers with `atexit`,
-- which run at the end of the process, the later one first.
use user_level_thread_librar.Base.{
  true, ◌||◌, is_empty, ℕ, zero, suc, ◌+◌, ◌≤◌, ◌≡◌, refl, ap, ◌∙◌, Option, none, some, List, [],
  ◌∷◌, ◌++◌, length, arith, Bool, count, count-append, SameItems,
}
use user_level_thread_librar.Machine.{Machine, Thread, StackEntry}
use user_level_thread_librar.Pool.{
  max_pooled_stacks, max_deferred_stacks, stack_pool_push, reclaim_from,
  reclaim_deferred_stacks_all, stack_pool_free_all,
}
use user_level_thread_librar.Pool.Conservation.{idle_stacks, count-idle_stacks, reclaim_deferred_stacks_all-keeps}
use user_level_thread_librar.Gc.{unmap_stack, free_zombies_from, do_final_cleanup}
use user_level_thread_librar.Gc.Cleanup.{stacks_of, do_final_cleanup-frees_all, free_zombies-loop}
use user_level_thread_librar.Lifecycle.Objects.{thread_pool_free_all}

-- What the reclaiming of stacks leaves alone.
pub record Reclaims (s t : Machine) : Type 0 where
  pub threads : t.threads ≡ s.threads
  pub zombie_queue : t.zombie_queue ≡ s.zombie_queue
  pub zombie_initialized : t.zombie_initialized ≡ s.zombie_initialized

stack_pool_push-Reclaims : (e : StackEntry) (s : Machine) → Reclaims s (stack_pool_push e s)
unfolding stack_pool_push
stack_pool_push-Reclaims e s = record {
  threads = ground arith;
  zombie_queue = ground arith;
  zombie_initialized = ground arith;
}

reclaim_from-Reclaims :
    (n : ℕ) (stacks : List StackEntry) (s : Machine) → Reclaims s (reclaim_from n stacks s)
unfolding reclaim_from
reclaim_from-Reclaims zero stacks s = record {
  threads = refl;
  zombie_queue = refl;
  zombie_initialized = refl;
}
reclaim_from-Reclaims (suc n) [] s = record {
  threads = refl;
  zombie_queue = refl;
  zombie_initialized = refl;
}
reclaim_from-Reclaims (suc n) (e ∷ stacks) s =
    let r = record s { deferred_stacks = stacks } in
    let first = stack_pool_push-Reclaims e r in
    let later = reclaim_from-Reclaims n stacks (stack_pool_push e r) in
    record {
      threads = later.threads ∙ first.threads;
      zombie_queue = later.zombie_queue ∙ first.zombie_queue;
      zombie_initialized = later.zombie_initialized ∙ first.zombie_initialized;
    }

pub free_all-Reclaims : (s : Machine) → Reclaims s (thread_pool_free_all s)
unfolding thread_pool_free_all reclaim_deferred_stacks_all
free_all-Reclaims s =
    let r = reclaim_from-Reclaims max_deferred_stacks s.deferred_stacks s in
    record {
      threads = r.threads;
      zombie_queue = r.zombie_queue;
      zombie_initialized = r.zombie_initialized;
    }

-- The final cleanup does not defer stacks or pool structures.
deferred-unmap :
    (o : Option ℕ) (th : Thread) (s : Machine)
    → ((unmap_stack o th s).deferred_stacks ≡ s.deferred_stacks)
      × ((unmap_stack o th s).thread_pool ≡ s.thread_pool)
deferred-unmap none th s = (refl, refl)
deferred-unmap (some m) th s = (refl, refl)

deferred-free_zombies :
    (q : List ℕ) (s : Machine)
    → ((free_zombies_from q s).deferred_stacks ≡ s.deferred_stacks)
      × ((free_zombies_from q s).thread_pool ≡ s.thread_pool)
unfolding free_zombies_from
deferred-free_zombies [] s = (refl, refl)
deferred-free_zombies (t ∷ q) s =
    let r = unmap_stack (s.threads t).stack_map (s.threads t) (record s { zombie_queue = q }) in
    let first =
      deferred-unmap (s.threads t).stack_map (s.threads t) (record s { zombie_queue = q }) in
    let later = deferred-free_zombies q (record r { freed = t ∷ r.freed }) in
    (later.0 ∙ first.0, later.1 ∙ first.1)

-- The stacks that are counted, when none is deferred any more and those of the zombies follow.
idle_moved :
    (test : StackEntry → Bool) (r s : Machine) (after_r zombies_r zombies_s : List StackEntry)
    → count test after_r ≡ count test (r.stack_pool ++ (zombies_r ++ r.unmapped))
    → count test zombies_r ≡ count test zombies_s
    → count test (idle_stacks r) ≡ count test (idle_stacks s)
    → count test r.deferred_stacks ≡ 0
    → count test after_r ≡ count test (idle_stacks s ++ zombies_s)
idle_moved test r s after_r zombies_r zombies_s h z k d =
    omega (
      arith,
      h,
      z,
      k,
      d,
      count-idle_stacks test r,
      count-append test r.stack_pool (zombies_r ++ r.unmapped),
      count-append test zombies_r r.unmapped,
      count-append test (idle_stacks s) zombies_s,
    )

-- After both handlers no structure is pooled, no stack is pooled or deferred, and every stack that
-- was deferred or pooled or that a zombie had has been unmapped, if the arrays kept their bounds.
pub handlers-unmap_all :
    (s : Machine)
    → length s.deferred_stacks ≤ max_deferred_stacks
    → length s.stack_pool ≤ max_pooled_stacks
    → (s.zombie_initialized || is_empty s.zombie_queue) ≡ true
    → let t = do_final_cleanup (thread_pool_free_all s) in
      (t.thread_pool ≡ [])
      × (t.deferred_stacks ≡ [])
      × (t.stack_pool ≡ [])
      × SameItems t.unmapped (idle_stacks s ++ stacks_of s.threads s.zombie_queue)
unfolding do_final_cleanup stack_pool_free_all thread_pool_free_all reclaim_deferred_stacks_all
handlers-unmap_all s h b z =
    let r = thread_pool_free_all s in
    let kept = reclaim_deferred_stacks_all-keeps s h b in
    let same = reclaim_from-Reclaims max_deferred_stacks s.deferred_stacks s in
    let untouched = deferred-free_zombies r.zombie_queue r in
    let empty : (r.zombie_initialized || is_empty r.zombie_queue) ≡ true =
      rw (same.zombie_initialized, same.zombie_queue) z in
    let loop = free_zombies-loop r empty in
    let final = do_final_cleanup-frees_all r empty in
    let stacks : stacks_of r.threads r.zombie_queue ≡ stacks_of s.threads s.zombie_queue =
      ap (λ f. stacks_of f r.zombie_queue) same.threads
      ∙ ap (λ q. stacks_of s.threads q) same.zombie_queue in
    (
      ap (λ m. m.thread_pool) loop ∙ untouched.1,
      ap (λ m. m.deferred_stacks) loop ∙ untouched.0 ∙ kept.0,
      refl,
      (λ test.
        idle_moved test r s (do_final_cleanup r).unmapped
          (stacks_of r.threads r.zombie_queue) (stacks_of s.threads s.zombie_queue)
          (final.4 test) (ap (λ l. count test l) stacks) (kept.1 test)
          (ap (λ l. count test l) kept.0)),
    )
