-- ===== src/Lifecycle/Process/Unmapped.antt =====
-- src/thread.c and src/thread_gc.c: what the end of the process gives back, on either way to it.
use user_level_thread_librar.Base.{
  ℕ, zero, suc, ◌+◌, ◌≤◌, ◌≡◌, refl, sym, subst, ap, ◌∙◌, Bool, true, false, ◌||◌, Option, none,
  some, List, [], ◌∷◌, length, is_empty, if◌then◌else◌, arith, ◌++◌, count, count-append, SameItems,
}
use user_level_thread_librar.Machine.{
  Machine, Thread, StackEntry, ExitHandler, final_cleanup_handler, pool_free_handler,
}
use user_level_thread_librar.Pool.{
  max_pooled_stacks, max_deferred_stacks, reclaim_from, reclaim_deferred_stacks_all,
  stack_pool_free_all,
}
use user_level_thread_librar.Pool.Conservation.{idle_stacks, count-idle_stacks, reclaim_deferred_stacks_all-keeps}
use user_level_thread_librar.Gc.{
  unmap_stack, free_zombies_from, free_zombies, do_final_cleanup, thread_cleanup_register,
}
use user_level_thread_librar.Gc.Cleanup.{stacks_of, do_final_cleanup-frees_all}
use user_level_thread_librar.Lifecycle.Objects.{thread_pool_free_all, free_pooled}
use user_level_thread_librar.Lifecycle.Handlers.{handlers-unmap_all, free_all-Reclaims}
use user_level_thread_librar.Lifecycle.Create.{register_handlers}
use user_level_thread_librar.Lifecycle.Process.{
  run_handlers, exit_process, thread_switch_to_cleanup,
}

-- What `thread_create` has registered, when its preparations ran so many times: those of a first
-- call that finds no memory for the slot of the main thread run again.
unfoldable pub registered : ℕ → List ExitHandler
registered zero = final_cleanup_handler ∷ []
registered (suc n) = pool_free_handler ∷ registered n

pub record IsRegistered (n : ℕ) (s : Machine) : Type 0 where
  pub once : s.cleanup_registered ≡ true
  pub handlers : s.exit_handlers ≡ registered n

-- The arrays kept their bounds, and a queue that was not initialised is empty.
pub record IsBounded (s : Machine) : Type 0 where
  pub deferred : length s.deferred_stacks ≤ max_deferred_stacks
  pub pooled : length s.stack_pool ≤ max_pooled_stacks
  pub zombies : (s.zombie_initialized || is_empty s.zombie_queue) ≡ true

-- Nothing is pooled or deferred, and just the stacks that were deferred or pooled, or that a zombie
-- had, have been unmapped, each once, after those that were unmapped before.
pub record Emptied (s t : Machine) : Type 0 where
  pub thread_pool : t.thread_pool ≡ []
  pub deferred_stacks : t.deferred_stacks ≡ []
  pub stack_pool : t.stack_pool ≡ []
  pub unmapped : SameItems t.unmapped (idle_stacks s ++ stacks_of s.threads s.zombie_queue)

reclaim_from-nil : (n : ℕ) (s : Machine) → reclaim_from n [] s ≡ s
unfolding reclaim_from
reclaim_from-nil zero s = refl
reclaim_from-nil (suc n) s = refl

-- A second run of `thread_pool_free_all` does nothing.
free_all-free_all :
    (s : Machine)
    → IsBounded s
    → thread_pool_free_all (thread_pool_free_all s) ≡ thread_pool_free_all s
unfolding thread_pool_free_all reclaim_deferred_stacks_all free_pooled
free_all-free_all s b =
    let t = thread_pool_free_all s in
    let kept = reclaim_deferred_stacks_all-keeps s b.deferred b.pooled in
    ap
      (λ (r : Machine). record r {
        thread_pool = [];
        freed = free_pooled r.thread_pool r.freed;
        head_ref_chunks_count = 0;
        head_ref_chunks_cap = 0;
        head_ref_active_chunk = none;
        head_ref_active_index = 0;
      })
      (ap (λ l. reclaim_from max_deferred_stacks l t) kept.0
        ∙ reclaim_from-nil max_deferred_stacks t)

free_all-IsBounded : (s : Machine) → IsBounded s → IsBounded (thread_pool_free_all s)
unfolding thread_pool_free_all
free_all-IsBounded s b =
    let kept = reclaim_deferred_stacks_all-keeps s b.deferred b.pooled in
    let same = free_all-Reclaims s in
    record {
      deferred = omega (arith, ap length kept.0);
      pooled = kept.2;
      zombies = rw (same.zombie_initialized, same.zombie_queue) b.zombies;
    }

handlers_run :
    (n : ℕ) (s : Machine)
    → IsBounded s
    → run_handlers (registered (suc n)) s ≡ do_final_cleanup (thread_pool_free_all s)
unfolding run_handlers registered
handlers_run zero s b = refl
handlers_run (suc n) s b =
    handlers_run n (thread_pool_free_all s) (free_all-IsBounded s b)
    ∙ ap do_final_cleanup (free_all-free_all s b)

exit_process-Emptied :
    (n : ℕ) (s : Machine) → IsRegistered (suc n) s → IsBounded s → Emptied s (exit_process s)
unfolding exit_process
exit_process-Emptied n s r b =
    let h = handlers-unmap_all s b.deferred b.pooled b.zombies in
    subst (λ t. Emptied s t) (sym (ap (λ l. run_handlers l s) r.handlers ∙ handlers_run n s b))
      (record { thread_pool = h.0; deferred_stacks = h.1; stack_pool = h.2; unmapped = h.3 })

-- What freeing the zombies leaves.
record Cleans (s t : Machine) : Type 0 where
  handlers : t.exit_handlers ≡ s.exit_handlers
  once : t.cleanup_registered ≡ s.cleanup_registered
  deferred : t.deferred_stacks ≡ s.deferred_stacks

free_zombies_from-Cleans : (q : List ℕ) (s : Machine) → Cleans s (free_zombies_from q s)
unfolding free_zombies_from
free_zombies_from-Cleans [] s = record { handlers = refl; once = refl; deferred = refl }
free_zombies_from-Cleans (t ∷ q) s =
    let a : Machine = record s { zombie_queue = q } in
    let r = unmap_stack (s.threads t).stack_map (s.threads t) a in
    let later = free_zombies_from-Cleans q (record r { freed = t ∷ r.freed }) in
    let first = unmapped (s.threads t).stack_map (s.threads t) a in
    record {
      handlers = later.handlers ∙ first.handlers;
      once = later.once ∙ first.once;
      deferred = later.deferred ∙ first.deferred;
    }
  where
    unmapped : (m : Option ℕ) (th : Thread) (a : Machine) → Cleans a (unmap_stack m th a)
    unmapped none th a = record { handlers = refl; once = refl; deferred = refl }
    unmapped (some m) th a = record { handlers = refl; once = refl; deferred = refl }

free_zombies-Cleans : (s : Machine) → Cleans s (free_zombies s)
unfolding free_zombies
free_zombies-Cleans s = go s.zombie_initialized
  where
    go : (b : Bool) → Cleans s (if b then free_zombies_from s.zombie_queue s else s)
    go true = free_zombies_from-Cleans s.zombie_queue s
    go false = record { handlers = refl; once = refl; deferred = refl }

-- The final cleanup has run before the handlers.
cleaned_first :
    (test : StackEntry → Bool) (u s : Machine) (after_u zombies_u zombies_s : List StackEntry)
    → count test after_u ≡ count test (idle_stacks u ++ zombies_u)
    → count test u.unmapped ≡ count test (s.stack_pool ++ (zombies_s ++ s.unmapped))
    → count test u.stack_pool ≡ 0
    → count test u.deferred_stacks ≡ count test s.deferred_stacks
    → count test zombies_u ≡ 0
    → count test after_u ≡ count test (idle_stacks s ++ zombies_s)
cleaned_first test u s after_u zombies_u zombies_s h f p d z =
    omega (
      arith,
      h,
      f,
      p,
      d,
      z,
      count-append test (idle_stacks u) zombies_u,
      count-idle_stacks test u,
      count-append test s.stack_pool (zombies_s ++ s.unmapped),
      count-append test zombies_s s.unmapped,
      count-append test (idle_stacks s) zombies_s,
      count-idle_stacks test s,
    )

thread_switch_to_cleanup-Emptied :
    (n : ℕ) (s : Machine)
    → IsRegistered (suc n) s
    → IsBounded s
    → Emptied s (thread_switch_to_cleanup s)
unfolding thread_switch_to_cleanup do_final_cleanup stack_pool_free_all
thread_switch_to_cleanup-Emptied n s r b =
    let u = do_final_cleanup s in
    let c = free_zombies-Cleans s in
    let f = do_final_cleanup-frees_all s b.zombies in
    let bounded : IsBounded u = record {
      deferred = omega (arith, ap length c.deferred, b.deferred);
      pooled = omega (arith, ap length f.1);
      zombies = ground (arith, f.0);
    } in
    let e =
      exit_process-Emptied n u
        (record { once = c.once ∙ r.once; handlers = c.handlers ∙ r.handlers }) bounded in
    record {
      thread_pool = e.thread_pool;
      deferred_stacks = e.deferred_stacks;
      stack_pool = e.stack_pool;
      unmapped =
          λ test.
          cleaned_first test u s (exit_process u).unmapped (stacks_of u.threads u.zombie_queue)
            (stacks_of s.threads s.zombie_queue) (e.unmapped test) (f.4 test)
            (ap (λ l. count test l) f.1) (ap (λ l. count test l) c.deferred)
            (ap (λ q. count test (stacks_of u.threads q)) f.0);
    }

-- Once the handlers are registered, the end of the process, by `exit` or by the switch to the
-- cleanup when the last thread has ended, leaves no structure pooled and no stack pooled or
-- deferred, and has unmapped just the stacks that were deferred or pooled or that a zombie had, each
-- once, if the arrays kept their bounds. It does not matter how often `thread_pool_free_all` is
-- registered.
pub ends-Emptied :
    (n : ℕ) (s : Machine)
    → IsRegistered (suc n) s
    → IsBounded s
    → Emptied s (exit_process s) × Emptied s (thread_switch_to_cleanup s)
ends-Emptied n s r b = (exit_process-Emptied n s r b, thread_switch_to_cleanup-Emptied n s r b)

-- The preparations of the first call, and of one that repeats them.
pub register_handlers-IsRegistered :
    (s : Machine)
    → s.cleanup_registered ≡ false
    → s.exit_handlers ≡ []
    → IsRegistered 1 (register_handlers s)
unfolding register_handlers thread_cleanup_register registered
register_handlers-IsRegistered s o e = record {
  once = ground (arith, o);
  handlers = ground (arith, o, e);
}

pub again-IsRegistered :
    (n : ℕ) (s : Machine) → IsRegistered n s → IsRegistered (suc n) (register_handlers s)
unfolding register_handlers thread_cleanup_register registered
again-IsRegistered n s r = record {
  once = ground (arith, r.once);
  handlers = ground (arith, r.once, r.handlers);
}
