-- ===== src/Refinement/Swap.antt =====
-- `swap_thread` after the running thread was parked or put back into the ready queue, seen as `Switch`.
use user_level_thread_librar.Base.{
  ℕ, ◌≡◌, refl, true, false, ◌&&◌, ◌||◌, ◌==◌, if◌then◌else◌, arith, elem, Distinct,
}
use user_level_thread_librar.Machine.{Machine, Context, is_ready, swap_thread}
use user_level_thread_librar.Abstract.{
  Channel, Leave, Switch, leave_state, leave_queued, leave_channel, parks_on,
}
use user_level_thread_librar.Refinement.{view, waits_in, channel_of, IsSound}

-- `r` is `s` just before the swap to `next`.
pub record Left (l : Leave) (next : ℕ) (s r : Machine) : Type 0 where
  pub chosen : elem next s.ready_queue ≡ true
  pub ready_distinct : Distinct r.ready_queue
  pub members :
      (t : ℕ)
      → elem t r.ready_queue ≡ (
          if t == next
          then false
          else if t == s.current_thread
          then leave_queued l
          else elem t s.ready_queue)
  pub queued :
      (t : ℕ)
      → (r.threads t).in_ready_queue ≡ (
          if t == next
          then false
          else if t == s.current_thread
          then leave_queued l
          else (s.threads t).in_ready_queue)
  pub state :
      (t : ℕ)
      → (r.threads t).state ≡ (if t == s.current_thread then leave_state l else (s.threads t).state)
  pub context : (t : ℕ) → (r.threads t).context ≡ (s.threads t).context
  pub waits :
      (c : Channel) (t : ℕ)
      → elem t (waits_in r c) ≡ (elem t (waits_in s c) || (t == s.current_thread && parks_on l c))
  pub waits_distinct : (c : Channel) → Distinct (waits_in r c)

module _ {l : Leave} {next : ℕ} {s r : Machine} (ctx : Context) (i : IsSound s)
    (f : Left l next s r)
    (goes_on : channel_of s.current_thread ctx
      ≡ leave_channel l (channel_of s.current_thread (s.threads s.current_thread).context)) where
  next_ready : is_ready (s.threads next).state ≡ true
  next_ready = ground (arith, f.chosen, i.ready_queued next, i.queued_ready next)

  next≢current : (next == s.current_thread) ≡ false
  next≢current = ground (arith, next_ready, i.one_running next)

  waits-swap : (c : Channel) → waits_in (swap_thread s.current_thread next ctx r) c ≡ waits_in r c
  unfolding swap_thread
  waits-swap (Channel.on_join t) = ground (arith, f.state next, next_ready, next≢current)
  waits-swap (Channel.on_signal t) = ground (arith, next≢current)
  waits-swap _ = refl

  pub swap-Switch : Switch l (view s) (view (swap_thread s.current_thread next ctx r))
  unfolding swap_thread
  swap-Switch = record {
    chosen = f.chosen;
    ready_distinct = f.ready_distinct;
    members = f.members;
    queued = λ t. ground (arith, f.queued t);
    state = λ t. ground (arith, f.state t, next≢current);
    channel = λ t. ground (arith, f.context t, goes_on);
    waits = λ c t. rw (waits-swap c) (f.waits c t);
    waits_distinct = λ c. rw (waits-swap c) (f.waits_distinct c);
  }
