-- ===== src/Lifecycle/Create/Call.antt =====
-- src/thread.c: `thread_create` as a whole, as moves of the abstract scheduler.
use user_level_thread_librar.Base.{
  ℕ, ◌≡◌, refl, ◌∙◌, inl, inr, Option, none, some, Bool, true, false, ◌&&◌, if◌then◌else◌, arith,
  Bool-cases, ltb, length,
}
use user_level_thread_librar.Machine.{Policy, Machine, main_thread}
use user_level_thread_librar.Abstract.{Moves}
use user_level_thread_librar.Abstract.Preservation.{Moves-Inv, Moves-trans}
use user_level_thread_librar.Refinement.{view, IsSound}
use user_level_thread_librar.Refinement.Unseen.{
  Unseen, Unseen-refl, Unseen-trans, Unseen-outside, Unseen-Moves,
}
use user_level_thread_librar.Pool.{stack_pool_empty}
use user_level_thread_librar.Lifecycle.Objects.{thread_alloc, thread_head_ref_alloc}
use user_level_thread_librar.Gc.{thread_cleanup_register}
use user_level_thread_librar.Lifecycle.Create.{
  register_handlers, initialize, main_slot, refill_pool, create_with, create_initialized,
  thread_create,
}
use user_level_thread_librar.Lifecycle.Create.Rounds.{
  slotted, reclaimed, GoesOn, IsUnused, create_resumed-Moves,
}

given_main_slot : (r : Option ℕ × Machine) → Unseen r.1 (main_slot r).1
given_main_slot (none, s) = record {
  current = refl;
  ready_queue = refl;
  mutexes = refl;
  sems = refl;
  conds = refl;
  state = λ t. ground arith;
  queued = λ t. ground arith;
  context = λ t. ground arith;
  joined_by = λ t. ground arith;
  signal = λ t. ground arith;
}
given_main_slot (some slot, s) = record {
  current = refl;
  ready_queue = refl;
  mutexes = refl;
  sems = refl;
  conds = refl;
  state = λ t. ground arith;
  queued = λ t. ground arith;
  context = λ t. ground arith;
  joined_by = λ t. ground arith;
  signal = λ t. ground arith;
}

registered : (s : Machine) → Unseen s (register_handlers s)
unfolding register_handlers thread_cleanup_register
registered s =
    Unseen-outside s (register_handlers s) (ground arith) (ground arith) (ground arith)
      (ground arith) (ground arith) (ground arith)

pub initialized : (s : Machine) → Unseen s (initialize s).1
unfolding initialize
initialized s = go s.scheduler_initialized
  where
    slotted_main : Option ℕ × Machine
    slotted_main = thread_head_ref_alloc main_thread (register_handlers s)

    go : (b : Bool) → Unseen s (if b then (true, s) else main_slot slotted_main).1
    go true = Unseen-refl s
    go false =
        Unseen-trans (registered s)
          (Unseen-trans (slotted main_thread (register_handlers s)) (given_main_slot slotted_main))

pub structured : (s : Machine) → Unseen s (thread_alloc s).1
unfolding thread_alloc
structured s =
    Unseen-outside s (thread_alloc s).1 (ground arith) (ground arith) (ground arith) (ground arith)
      (ground arith) (ground arith)

pub refilled : (s : Machine) → Unseen s (refill_pool s)
refilled s = elim (Bool-cases (stack_pool_empty s && ltb 0 (length s.deferred_stacks))) [
  | inl y ↦ rw (y, refill_pool) (reclaimed s)
  | inr n ↦ rw (n, refill_pool) (Unseen-refl s)
]

create_with-Moves :
    (policy : Policy) (newthread func funcarg : ℕ) (r : Option ℕ × Machine) (t : Machine)
    → IsSound r.1
    → ((x : ℕ) → r.0 ≡ some x → IsUnused x r.1)
    → GoesOn (create_with policy newthread func funcarg r) t
    → Moves (view r.1) (view t)
create_with-Moves policy newthread func funcarg (none, s) t i u (inl h) = absurd (cc)
create_with-Moves policy newthread func funcarg (none, s) t i u (inr h) = absurd (cc)
create_with-Moves policy newthread func funcarg (some newth, s) t i u h =
    Moves-trans (Unseen-Moves i (refilled s)) (
      create_resumed-Moves policy _ (refill_pool s) t (Moves-Inv (Unseen-Moves i (refilled s)) i)
        ((refilled s).state newth ∙ u newth refl) h)

create_initialized-Moves :
    (policy : Policy) (newthread func funcarg : ℕ) (r : Bool × Machine) (t : Machine)
    → IsSound r.1
    → ((x : ℕ) → (thread_alloc r.1).0 ≡ some x → IsUnused x r.1)
    → GoesOn (create_initialized policy newthread func funcarg r) t
    → Moves (view r.1) (view t)
create_initialized-Moves policy newthread func funcarg (false, s) t i u (inl h) = absurd (cc)
create_initialized-Moves policy newthread func funcarg (false, s) t i u (inr h) = absurd (cc)
create_initialized-Moves policy newthread func funcarg (true, s) t i u h =
    Moves-trans (Unseen-Moves i (structured s)) (
      create_with-Moves policy newthread func funcarg (thread_alloc s) t
        (Moves-Inv (Unseen-Moves i (structured s)) i) (λ x e. (structured s).state x ∙ u x e) h)

-- The structure that `thread_create` is going to use holds no live thread.
abbrev pub AllocatesUnused : Machine → Type 0
AllocatesUnused s = (x : ℕ) → (thread_alloc (initialize s).1).0 ≡ some x → IsUnused x s

pub thread_create-Moves :
    (policy : Policy) (newthread func : Option ℕ) (funcarg : ℕ) (s t : Machine)
    → IsSound s
    → AllocatesUnused s
    → GoesOn (thread_create policy newthread func funcarg s) t
    → Moves (view s) (view t)
unfolding thread_create
thread_create-Moves policy none func funcarg s t i u (inl h) = absurd (cc)
thread_create-Moves policy none func funcarg s t i u (inr h) = absurd (cc)
thread_create-Moves policy (some n) none funcarg s t i u (inl h) = absurd (cc)
thread_create-Moves policy (some n) none funcarg s t i u (inr h) = absurd (cc)
thread_create-Moves policy (some n) (some f) funcarg s t i u h =
    Moves-trans (Unseen-Moves i (initialized s)) (
      create_initialized-Moves policy n f funcarg (initialize s) t
        (Moves-Inv (Unseen-Moves i (initialized s)) i) (λ x e. (initialized s).state x ∙ u x e) h)
