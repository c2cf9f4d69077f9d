-- ===== src/Pool.antt =====
-- src/pool.c, and the deferred stacks of src/thread.c: the stacks that are kept for reuse.
pub mod Conservation
use user_level_thread_librar.Base.{
  ℕ, zero, suc, ◌*◌, ◌+◌, ◌^◌, Option, none, some, Bool, List, [], ◌∷◌, ◌++◌, leb, ltb,
  if◌then◌else◌, length, is_empty,
}
use user_level_thread_librar.Machine.{Machine, StackEntry, Thread, set_thread}

abbrev pub guard_size : ℕ
guard_size = 4 * 1024

abbrev pub max_pooled_stacks : ℕ
max_pooled_stacks = 2 ^ 17

abbrev pub max_deferred_stacks : ℕ
max_deferred_stacks = 16384

-- The next answer of `malloc`, `realloc` or `mmap`; null when the system gives no more.
abbrev pub next_reply : List (Option ℕ) → Option ℕ
next_reply [] = none
next_reply (r ∷ rs) = r

abbrev pub later_replies : List (Option ℕ) → List (Option ℕ)
later_replies [] = []
later_replies (r ∷ rs) = rs

abbrev pub ask : Machine → Option ℕ × Machine
ask s = (next_reply s.replies, record s { replies = later_replies s.replies })

-- A fresh mapping: the stack is above the guard page. `VALGRIND_STACK_REGISTER` is 0 outside
-- Valgrind.
abbrev pub fresh_stack : ℕ → StackEntry
fresh_stack map = record { map = map; stack = map + guard_size; valgrind_id = 0 }

abbrev pub map_stack : Option ℕ × Machine → Option StackEntry × Machine
map_stack (none, s) = (none, s)
map_stack (some map, s) = (some (fresh_stack map), s)

abbrev pub pop_stack : List StackEntry → Machine → Option StackEntry × Machine
pop_stack [] s = map_stack (ask s)
pop_stack (e ∷ pool) s = (some e, record s { stack_pool = pool })

-- `none` for the result -1.
unfoldable pub stack_pool_alloc : Machine → Option StackEntry × Machine
stack_pool_alloc s = pop_stack s.stack_pool s

-- A full pool gives the stack back to the system. `madvise` changes no state.
unfoldable pub stack_pool_push : StackEntry → Machine → Machine
stack_pool_push e s =
    if leb max_pooled_stacks (length s.stack_pool)
    then record s { unmapped = e ∷ s.unmapped }
    else record s { stack_pool = e ∷ s.stack_pool }

unfoldable pub stack_pool_empty : Machine → Bool
stack_pool_empty s = is_empty s.stack_pool

-- The loop over the array unmaps the oldest entry first, so the newest one is at the head.
unfoldable pub stack_pool_free_all : Machine → Machine
stack_pool_free_all s = record s { unmapped = s.stack_pool ++ s.unmapped; stack_pool = [] }

-- The loop of `reclaim_deferred_stacks_batch` with its budget.
unfoldable pub reclaim_from : ℕ → List StackEntry → Machine → Machine
reclaim_from zero stacks s = s
reclaim_from (suc budget) [] s = s
reclaim_from (suc budget) (e ∷ stacks) s =
    reclaim_from budget stacks (stack_pool_push e (record s { deferred_stacks = stacks }))

unfoldable pub reclaim_deferred_stacks_all : Machine → Machine
reclaim_deferred_stacks_all s = reclaim_from max_deferred_stacks s.deferred_stacks s

abbrev pub entry_of : ℕ → Thread → StackEntry
entry_of map th = record { map = map; stack = th.stack_base; valgrind_id = th.valgrind_stack_id }

-- A stack that is deferred belongs to its thread no more.
abbrev pub defer_entry : ℕ → Option ℕ → Machine → Machine
defer_entry t none s = s
defer_entry t (some map) s =
    if ltb (length s.deferred_stacks) max_deferred_stacks
    then record (set_thread t (record (s.threads t) { stack_map = none; stack_base = 0 }) s) {
      deferred_stacks = entry_of map (s.threads t) ∷ s.deferred_stacks;
    }
    else s

unfoldable pub defer_stack_reclaim : ℕ → Machine → Machine
defer_stack_reclaim t s = defer_entry t (s.threads t).stack_map s
