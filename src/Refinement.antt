-- ===== src/Refinement.antt =====
-- The state of the library seen as the abstract scheduler of Abstract.antt.
pub mod Unseen
pub mod Revive
pub mod Swap
pub mod Queues
pub mod Park
use user_level_thread_librar.Base.{ℕ, Option, none, some, Bool, List, [], ◌∷◌, if◌then◌else◌}
use user_level_thread_librar.Machine.{
  Machine, Thread, Context, entry, in_yield, in_join, in_lock, in_sem_wait, in_cond_wait,
  in_sigwait, in_create, is_terminated,
}
use user_level_thread_librar.Abstract.{
  Channel, on_mutex, on_sem, on_cond, on_join, on_signal, nowhere, View, Inv,
}

-- What a thread suspended at a point waits for, if it is blocked.
abbrev pub channel_of : ℕ → Context → Channel
channel_of t entry = nowhere
channel_of t in_yield = nowhere
channel_of t (in_join target retval) = on_join target
channel_of t (in_lock m caller) = on_mutex m
channel_of t (in_sem_wait m) = on_sem m
channel_of t (in_cond_wait c m) = on_cond c
channel_of t (in_sigwait set sig) = on_signal t
channel_of t (in_create creation) = nowhere

abbrev pub to_list : Option ℕ → List ℕ
to_list none = []
to_list (some t) = t ∷ []

-- The thread that is blocked on the end of this one.
abbrev pub joiners : Thread → List ℕ
joiners th = if is_terminated th.state then [] else to_list th.joined_by

abbrev pub signal_waiters : ℕ → Thread → List ℕ
signal_waiters t th = if th.waiting_for_signal then t ∷ [] else []

abbrev pub waits_in : Machine → Channel → List ℕ
waits_in s (on_mutex m) = (s.mutexes m).waiting_queue
waits_in s (on_sem m) = (s.sems m).waiting_queue
waits_in s (on_cond c) = (s.conds c).waiting_queue
waits_in s (on_join t) = joiners (s.threads t)
waits_in s (on_signal t) = signal_waiters t (s.threads t)
waits_in s nowhere = []

abbrev pub view : Machine → View
view s = record {
  current = s.current_thread;
  ready_queue = s.ready_queue;
  state = λ t. (s.threads t).state;
  queued = λ t. (s.threads t).in_ready_queue;
  channel = λ t. channel_of t (s.threads t).context;
  waits = waits_in s;
}

-- The library's state is well formed.
abbrev pub IsSound : Machine → Type 0
IsSound s = Inv (view s)
