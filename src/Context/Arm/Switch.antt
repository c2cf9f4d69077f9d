-- ===== src/Context/Arm/Switch.antt =====
-- src/context.S for AArch64: what the two functions do to a `struct fast_ctx`, and how a call of
-- `fast_swap_context` returns.
use user_level_thread_librar.Base.{ℕ, ◌+◌, ◌%◌, ◌≤◌, ◌<◌, ◌≡◌, refl, ap, sym, subst, ◌∙◌, arith}
use user_level_thread_librar.Context.{AreApart, AgreesOn}
use user_level_thread_librar.Context.Arm.Layout.{read_ctx, write_ctx, read-write-apart}
use user_level_thread_librar.Context.Arm.{
  FastCtx, Cpu, fast_ctx_init, fast_swap_context, fast_restore_context,
}

-- The processor as a context that goes on at the link register.
abbrev pub saved : Cpu → FastCtx
saved c = record {
  lr = c.x30;
  sp = c.sp;
  x19 = c.x19;
  x20 = c.x20;
  x21 = c.x21;
  x22 = c.x22;
  x23 = c.x23;
  x24 = c.x24;
  x25 = c.x25;
  x26 = c.x26;
  x27 = c.x27;
  x28 = c.x28;
  fp = c.x29;
}

-- The processor goes on with a context.
abbrev pub loaded : FastCtx → Cpu → Cpu
loaded x c = record c {
  pc = x.lr;
  x9 = x.sp;
  x30 = x.lr;
  sp = x.sp;
  x19 = x.x19;
  x20 = x.x20;
  x21 = x.x21;
  x22 = x.x22;
  x23 = x.x23;
  x24 = x.x24;
  x25 = x.x25;
  x26 = x.x26;
  x27 = x.x27;
  x28 = x.x28;
  x29 = x.fp;
}

-- On AArch64 `fast_swap_context`, with two structures that do not overlap, stores the link register,
-- the stack pointer and the callee-saved registers in the first, at the offsets of
-- include/context.h, and goes on with those of the second; beyond that it changes only x9.
pub swap_context-restores :
    (c : Cpu)
    → AreApart 104 c.x0 c.x1
    → fast_swap_context c
      ≡ record (loaded (read_ctx c.x1 c.memory) c) { memory = write_ctx c.x0 (saved c) c.memory }
unfolding fast_swap_context
swap_context-restores c p =
    ap (λ x. record (loaded x c) { memory = write_ctx c.x0 (saved c) c.memory })
      (read-write-apart c.x0 c.x1 (saved c) c.memory p)

restore_context-loads : (c : Cpu) → fast_restore_context c ≡ loaded (read_ctx c.x0 c.memory) c
unfolding fast_restore_context
restore_context-loads c = refl

-- `c` is the call, `d` is where it has returned to: the registers that a call keeps are as before.
pub record ReturnsTo (c d : Cpu) : Type 0 where
  pub pc : d.pc ≡ c.x30
  pub sp : d.sp ≡ c.sp
  pub x19 : d.x19 ≡ c.x19
  pub x20 : d.x20 ≡ c.x20
  pub x21 : d.x21 ≡ c.x21
  pub x22 : d.x22 ≡ c.x22
  pub x23 : d.x23 ≡ c.x23
  pub x24 : d.x24 ≡ c.x24
  pub x25 : d.x25 ≡ c.x25
  pub x26 : d.x26 ≡ c.x26
  pub x27 : d.x27 ≡ c.x27
  pub x28 : d.x28 ≡ c.x28
  pub x29 : d.x29 ≡ c.x29

module _ (c d : Cpu) (apart : AreApart 104 c.x0 c.x1)
    (kept : AgreesOn c.x0 104 (fast_swap_context c).memory d.memory) where
  abbrev after_swap : Cpu
  after_swap = record d { memory = write_ctx d.x0 (saved d) d.memory }

-- On AArch64 a thread whose context `fast_ctx_init` has made begins at its start, with the stack
-- pointer at the top of its stack, rounded down to a multiple of 16.
pub ctx_init-starts :
    (stack_top start : ℕ) (d : Cpu)
    → read_ctx d.x0 d.memory ≡ fast_ctx_init stack_top start
    → let e = fast_restore_context d in
      (e.pc ≡ start) × (e.sp % 16 ≡ 0) × (e.sp ≤ stack_top) × (stack_top < e.sp + 16)
unfolding fast_ctx_init
ctx_init-starts stack_top start d x =
    subst
      (λ (e : Cpu). (e.pc ≡ start) × (e.sp % 16 ≡ 0) × (e.sp ≤ stack_top) × (stack_top < e.sp + 16))
      (sym (restore_context-loads d ∙ ap (λ y. loaded y d) x))
      (refl, omega arith, omega arith, omega arith)
