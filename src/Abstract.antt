-- ===== src/Abstract.antt =====
-- The contract of the scheduler, apart from policy and representation: one thread runs, the ready
-- threads are queued, and a blocked thread waits in exactly the queue that its call names.
-- The operations of src/scheduler.c, src/thread.c and the synchronisation files refine `Move`.
pub mod Preservation
use user_level_thread_librar.Base.{
  ℕ, ◌≡◌, Bool, true, false, not, ◌&&◌, ◌||◌, List, [], ◌==◌, if◌then◌else◌, elem, Distinct,
}
use user_level_thread_librar.Machine.{
  State, ready, running, terminated, blocked, is_ready, is_running, is_blocked,
}

-- What a blocked thread waits for. The waiter of a signal is a channel of its own.
pub data Channel : Type 0 where
  on_mutex on_sem on_cond on_join on_signal : ℕ → Channel
  nowhere : Channel

abbrev pub same : Channel → Channel → Bool
same (on_mutex a) (on_mutex b) = a == b
same (on_sem a) (on_sem b) = a == b
same (on_cond a) (on_cond b) = a == b
same (on_join a) (on_join b) = a == b
same (on_signal a) (on_signal b) = a == b
same nowhere nowhere = true
same _ _ = false

pub record View : Type 0 where
  pub current : ℕ
  pub ready_queue : List ℕ
  pub state : ℕ → State
  pub queued : ℕ → Bool
  pub channel : ℕ → Channel
  pub waits : Channel → List ℕ

pub record Inv (v : View) : Type 0 where
  pub ready_distinct : Distinct v.ready_queue
  pub ready_queued : (t : ℕ) → elem t v.ready_queue ≡ v.queued t
  pub queued_ready : (t : ℕ) → v.queued t ≡ is_ready (v.state t)
  pub one_running : (t : ℕ) → is_running (v.state t) ≡ (t == v.current)
  pub waiting :
      (c : Channel) (t : ℕ) → elem t (v.waits c) ≡ (is_blocked (v.state t) && same c (v.channel t))
  pub waits_distinct : (c : Channel) → Distinct (v.waits c)

-- How the running thread gives up the processor.
pub data Leave : Type 0 where
  parks : Channel → Leave
  yields exits : Leave

abbrev pub leave_state : Leave → State
leave_state (parks c) = blocked
leave_state yields = ready
leave_state exits = terminated

abbrev pub leave_queued : Leave → Bool
leave_queued yields = true
leave_queued _ = false

abbrev pub leave_channel : Leave → Channel → Channel
leave_channel (parks c) d = c
leave_channel yields d = nowhere
leave_channel exits d = d

abbrev pub parks_on : Leave → Channel → Bool
parks_on (parks c) d = same d c
parks_on _ d = false

-- The processor goes from `v.current` to a thread of the ready queue.
pub record Switch (l : Leave) (v w : View) : Type 0 where
  pub chosen : elem w.current v.ready_queue ≡ true
  pub ready_distinct : Distinct w.ready_queue
  pub members :
      (t : ℕ)
      → elem t w.ready_queue ≡ (
          if t == w.current
          then false
          else if t == v.current
          then leave_queued l
          else elem t v.ready_queue)
  pub queued :
      (t : ℕ)
      → w.queued t
        ≡ (if t == w.current then false else if t == v.current then leave_queued l else v.queued t)
  pub state :
      (t : ℕ)
      → w.state t
        ≡ (if t == w.current then running else if t == v.current then leave_state l else v.state t)
  pub channel :
      (t : ℕ)
      → w.channel t ≡ (if t == v.current then leave_channel l (v.channel t) else v.channel t)
  pub waits :
      (c : Channel) (t : ℕ)
      → elem t (w.waits c) ≡ (elem t (v.waits c) || (t == v.current && parks_on l c))
  pub waits_distinct : (c : Channel) → Distinct (w.waits c)

-- The waiter `x` of a channel becomes ready.
pub record Wake (c : Channel) (x : ℕ) (v w : View) : Type 0 where
  pub waiter : elem x (v.waits c) ≡ true
  pub current : w.current ≡ v.current
  pub ready_distinct : Distinct w.ready_queue
  pub members : (t : ℕ) → elem t w.ready_queue ≡ (elem t v.ready_queue || t == x)
  pub queued : (t : ℕ) → w.queued t ≡ (if t == x then true else v.queued t)
  pub state : (t : ℕ) → w.state t ≡ (if t == x then ready else v.state t)
  pub channel : (t : ℕ) → w.channel t ≡ v.channel t
  pub waits :
      (d : Channel) (t : ℕ) → elem t (w.waits d) ≡ (elem t (v.waits d) && not (t == x && same d c))
  pub waits_distinct : (d : Channel) → Distinct (w.waits d)

-- The queues may be reordered; who runs, who is ready and who waits for what stays.
pub record Stay (v w : View) : Type 0 where
  pub current : w.current ≡ v.current
  pub ready_distinct : Distinct w.ready_queue
  pub members : (t : ℕ) → elem t w.ready_queue ≡ elem t v.ready_queue
  pub queued : (t : ℕ) → w.queued t ≡ v.queued t
  pub state : (t : ℕ) → w.state t ≡ v.state t
  pub channel : (t : ℕ) → is_blocked (v.state t) ≡ true → w.channel t ≡ v.channel t
  pub waits : (c : Channel) (t : ℕ) → elem t (w.waits c) ≡ elem t (v.waits c)
  pub waits_distinct : (c : Channel) → Distinct (w.waits c)

-- A structure that holds no live thread becomes a ready thread.
pub record Spawn (x : ℕ) (v w : View) : Type 0 where
  pub unused : v.state x ≡ terminated
  pub current : w.current ≡ v.current
  pub ready_distinct : Distinct w.ready_queue
  pub members : (t : ℕ) → elem t w.ready_queue ≡ (elem t v.ready_queue || t == x)
  pub queued : (t : ℕ) → w.queued t ≡ (if t == x then true else v.queued t)
  pub state : (t : ℕ) → w.state t ≡ (if t == x then ready else v.state t)
  pub channel : (t : ℕ) → w.channel t ≡ (if t == x then nowhere else v.channel t)
  pub waits : (d : Channel) (t : ℕ) → elem t (w.waits d) ≡ elem t (v.waits d)
  pub waits_distinct : (d : Channel) → Distinct (w.waits d)

pub data Move (v w : View) : Type 0 where
  stays : Stay v w → Move v w
  wakes : (c : Channel) (x : ℕ) → Wake c x v w → Move v w
  spawns : (x : ℕ) → Spawn x v w → Move v w
  switches : (l : Leave) → Switch l v w → Move v w

-- Any number of moves, one after another.
pub data Moves (v : View) : View → Type 0 where
  done : Moves v v
  more : {u w : View} → Moves v u → Move u w → Moves v w
