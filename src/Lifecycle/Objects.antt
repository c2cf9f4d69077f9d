-- ===== src/Lifecycle/Objects.antt =====
-- src/thread.c: thread structures and the slots of join chains. That the memory of chunks is freed
-- is not recorded.
use user_level_thread_librar.Base.{
  ℕ, ◌+◌, ◌*◌, Option, none, some, Bool, true, false, ◌||◌, List, [], ◌∷◌, leb, ltb, ◌==◌,
  if◌then◌else◌, update, length, is_none,
}
use user_level_thread_librar.Machine.{Machine, set_thread, main_thread}
use user_level_thread_librar.Pool.{ask, reclaim_deferred_stacks_all}

abbrev pub max_pooled_threads : ℕ
max_pooled_threads = 50000

abbrev pub head_ref_chunk_size : ℕ
head_ref_chunk_size = 1024

abbrev pub pop_thread : List ℕ → Machine → Option ℕ × Machine
pop_thread [] s = ask s
pop_thread (t ∷ pool) s = (some t, record s { thread_pool = pool })

unfoldable pub thread_alloc : Machine → Option ℕ × Machine
thread_alloc s = pop_thread s.thread_pool s

unfoldable pub thread_free : ℕ → Machine → Machine
thread_free t s =
    if ltb (length s.thread_pool) max_pooled_threads
    then record s { thread_pool = t ∷ s.thread_pool }
    else record s { freed = t ∷ s.freed }

unfoldable pub thread_obj_release : ℕ → Machine → Machine
thread_obj_release t s =
    if t == main_thread
    then s
    else thread_free t (set_thread t (record (s.threads t) { head_joiner = none }) s)

-- The active chunk has no room, or there is none.
abbrev pub needs_chunk : Machine → Bool
needs_chunk s = is_none s.head_ref_active_chunk || leb head_ref_chunk_size s.head_ref_active_index

abbrev pub new_cap : ℕ → ℕ
new_cap cap = if cap == 0 then 64 else cap * 2

-- Room for one more chunk in `head_ref_chunks`; false if `realloc` fails.
abbrev pub grow_chunks : Machine → Bool × Machine
grow_chunks s =
    if leb s.head_ref_chunks_cap s.head_ref_chunks_count then grown (ask s) else (true, s)
  where
    grown : Option ℕ × Machine → Bool × Machine
    grown (none, r) = (false, r)
    grown (some p, r) = (true, record r { head_ref_chunks_cap = new_cap r.head_ref_chunks_cap })

abbrev pub activate_chunk : ℕ → Bool × Machine → Option ℕ × Machine
activate_chunk chunk (false, s) = (none, s)
activate_chunk chunk (true, s) = (
  some chunk,
  record s {
    head_ref_chunks_count = s.head_ref_chunks_count + 1;
    head_ref_active_chunk = some chunk;
    head_ref_active_index = 0;
  },
)

abbrev pub new_chunk : Option ℕ × Machine → Option ℕ × Machine
new_chunk (none, s) = (none, s)
new_chunk (some chunk, s) = activate_chunk chunk (grow_chunks s)

abbrev pub take_slot : ℕ → Option ℕ × Machine → Option ℕ × Machine
take_slot owner (none, s) = (none, s)
take_slot owner (some chunk, s) =
    let ref = chunk + s.head_ref_active_index in
    (
      some ref,
      record s {
        head_ref_active_index = s.head_ref_active_index + 1;
        head_refs = update s.head_refs ref owner;
      },
    )

-- A slot that points to `owner`; a slot is the address of its chunk and an index.
unfoldable pub thread_head_ref_alloc : ℕ → Machine → Option ℕ × Machine
thread_head_ref_alloc owner s =
    take_slot owner (if needs_chunk s then new_chunk (ask s) else (s.head_ref_active_chunk, s))

-- The pooled structures go to `free`, the newest one last.
unfoldable pub free_pooled : List ℕ → List ℕ → List ℕ
free_pooled [] freed = freed
free_pooled (t ∷ pool) freed = t ∷ free_pooled pool freed

unfoldable pub thread_pool_free_all : Machine → Machine
thread_pool_free_all s =
    let r = reclaim_deferred_stacks_all s in
    record r {
      thread_pool = [];
      freed = free_pooled r.thread_pool r.freed;
      head_ref_chunks_count = 0;
      head_ref_chunks_cap = 0;
      head_ref_active_chunk = none;
      head_ref_active_index = 0;
    }
