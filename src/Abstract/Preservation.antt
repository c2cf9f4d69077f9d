-- ===== src/Abstract/Preservation.antt =====
-- The moves of the abstract scheduler and its invariant.
use user_level_thread_librar.Base.{
  ℕ, ◌≡◌, true, false, ◌&&◌, ◌||◌, ◌==◌, inl, inr, arith, elem, ==→≡, Bool-cases,
}
use user_level_thread_librar.Machine.{is_ready, is_running, is_blocked}
use user_level_thread_librar.Abstract.{
  Channel, same, View, Inv, Leave, parks, yields, exits, Switch, Wake, Stay, Move, stays, wakes,
  spawns, switches, Spawn, Moves, done, more, leave_state, leave_channel, parks_on,
}

pub same_refl : (c : Channel) → same c c ≡ true
same_refl (Channel.on_mutex a) = ground arith
same_refl (Channel.on_sem a) = ground arith
same_refl (Channel.on_cond a) = ground arith
same_refl (Channel.on_join a) = ground arith
same_refl (Channel.on_signal a) = ground arith
same_refl Channel.nowhere = ground arith

pub Stay-Inv : {v w : View} → Stay v w → Inv v → Inv w
Stay-Inv {v} {w} m i = record {
  ready_distinct = m.ready_distinct;
  ready_queued = λ t. ground (arith, m.members t, m.queued t, i.ready_queued t);
  queued_ready = λ t. ground (arith, m.queued t, m.state t, i.queued_ready t);
  one_running = λ t. ground (arith, m.state t, m.current, i.one_running t);
  waiting = λ c t. ground (arith, m.waits c t, m.state t, m.channel t, i.waiting c t);
  waits_distinct = m.waits_distinct;
}

-- A waiter is blocked on its channel.
waiter_blocked :
    {v : View} (c : Channel) (x : ℕ)
    → Inv v
    → elem x (v.waits c) ≡ true
    → (is_blocked (v.state x) ≡ true) × (same c (v.channel x) ≡ true)
waiter_blocked c x i h = ground (arith, i.waiting c x)

pub same→≡ : (c d : Channel) → same c d ≡ true → c ≡ d
same→≡ (Channel.on_mutex a) d h = ground arith
same→≡ (Channel.on_sem a) d h = ground arith
same→≡ (Channel.on_cond a) d h = ground arith
same→≡ (Channel.on_join a) d h = ground arith
same→≡ (Channel.on_signal a) d h = ground arith
same→≡ Channel.nowhere d h = ground arith

pub Wake-Inv : {c : Channel} {x : ℕ} {v w : View} → Wake c x v w → Inv v → Inv w
Wake-Inv {c} {x} {v} {w} m i = record {
  ready_distinct = m.ready_distinct;
  ready_queued = λ t. ground (arith, m.members t, m.queued t, i.ready_queued t);
  queued_ready = λ t. ground (arith, m.queued t, m.state t, i.queued_ready t);
  one_running =
      λ t. ground (arith, m.state t, m.current, i.one_running t, waiter_blocked c x i m.waiter);
  waiting = λ d t. ground (
    arith,
    m.waits d t,
    m.state t,
    m.channel t,
    i.waiting d t,
    waiter_blocked c x i m.waiter,
    same→≡ c (v.channel x),
  );
  waits_distinct = m.waits_distinct;
}

module _ {l : Leave} {v w : View} (m : Switch l v w) (i : Inv v) where
  chosen_ready : (v.queued w.current ≡ true) × (is_ready (v.state w.current) ≡ true)
  chosen_ready = ground (arith, m.chosen, i.ready_queued w.current, i.queued_ready w.current)

  next≢current : (w.current == v.current) ≡ false
  next≢current = ground (arith, chosen_ready, i.one_running w.current)

  current_running : is_running (v.state v.current) ≡ true
  current_running = ground (arith, i.one_running v.current)

  -- The thread that is chosen waited nowhere, and waits nowhere.
  waiting_chosen :
      (c : Channel)
      → elem w.current (w.waits c)
        ≡ (is_blocked (w.state w.current) && same c (w.channel w.current))
  waiting_chosen c = ground (
    arith,
    m.waits c w.current,
    m.state w.current,
    i.waiting c w.current,
    chosen_ready,
    next≢current,
  )

  -- The thread that leaves waited nowhere, and waits where it parks.
  waiting_leaver :
      (k : Leave) (c : Channel)
      → w.state v.current ≡ leave_state k
      → w.channel v.current ≡ leave_channel k (v.channel v.current)
      → elem v.current (w.waits c) ≡ (elem v.current (v.waits c) || parks_on k c)
      → elem v.current (w.waits c)
        ≡ (is_blocked (w.state v.current) && same c (w.channel v.current))
  waiting_leaver (parks d) c s h e = ground (arith, i.waiting c v.current, current_running)
  waiting_leaver yields c s h e = ground (arith, i.waiting c v.current, current_running)
  waiting_leaver exits c s h e = ground (arith, i.waiting c v.current, current_running)

  waiting :
      (c : Channel) (t : ℕ) → elem t (w.waits c) ≡ (is_blocked (w.state t) && same c (w.channel t))
  waiting c t = elim (Bool-cases (t == w.current)) [
    | inl e ↦ rw (==→≡ t w.current e) (waiting_chosen c)
    | inr n ↦ elim (Bool-cases (t == v.current)) [
      | inl e ↦ rw (==→≡ t v.current e) (
          waiting_leaver l c (ground (arith, m.state v.current, next≢current))
            (ground (arith, m.channel v.current)) (ground (arith, m.waits c v.current)))
      | inr o ↦ ground (arith, m.waits c t, m.state t, m.channel t, i.waiting c t)
    ]
  ]

  pub Switch-Inv : Inv w
  Switch-Inv = record {
    ready_distinct = m.ready_distinct;
    ready_queued = λ t. ground (arith, m.members t, m.queued t, i.ready_queued t);
    queued_ready = λ t. ground (arith, m.queued t, m.state t, i.queued_ready t);
    one_running = λ t. ground (arith, m.state t, i.one_running t);
    waiting = waiting;
    waits_distinct = m.waits_distinct;
  }

pub Spawn-Inv : {x : ℕ} {v w : View} → Spawn x v w → Inv v → Inv w
Spawn-Inv {x} m i = record {
  ready_distinct = m.ready_distinct;
  ready_queued = λ t. ground (arith, m.members t, m.queued t, i.ready_queued t);
  queued_ready = λ t. ground (arith, m.queued t, m.state t, i.queued_ready t);
  one_running = λ t. ground (arith, m.state t, m.current, m.unused, i.one_running t);
  waiting = λ d t. ground (arith, m.waits d t, m.state t, m.channel t, m.unused, i.waiting d t);
  waits_distinct = m.waits_distinct;
}

pub Move-Inv : {v w : View} → Move v w → Inv v → Inv w
Move-Inv (stays m) i = Stay-Inv m i
Move-Inv (wakes c x m) i = Wake-Inv m i
Move-Inv (spawns x m) i = Spawn-Inv m i
Move-Inv (switches l m) i = Switch-Inv m i

pub Moves-Inv : {v w : View} → Moves v w → Inv v → Inv w
Moves-Inv done i = i
Moves-Inv (more r m) i = Move-Inv m (Moves-Inv r i)

pub Moves-trans : {u v w : View} → Moves u v → Moves v w → Moves u w
Moves-trans a done = a
Moves-trans a (more b m) = more (Moves-trans a b) m
