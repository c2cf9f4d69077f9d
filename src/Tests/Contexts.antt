-- ===== src/Tests/Contexts.antt =====
-- Two threads that swap contexts, on either processor.
use user_level_thread_librar.Base.{
  ◌+◌, ◌%◌, ◌≤◌, ◌<◌, ◌≡◌, refl, inl, inr, arith, if◌then◌else◌, ◌==◌,
}
use user_level_thread_librar.Context.X86
use user_level_thread_librar.Context.Arm

-- A call with its structure at 1000 and the other at 2000.
abbrev calling : X86.Cpu
calling = record {
  pc = 1;
  rax = 2;
  rdi = 1000;
  rsi = 2000;
  rbx = 3;
  rbp = 4;
  rsp = 8000;
  r12 = 5;
  r13 = 6;
  r14 = 7;
  r15 = 8;
  memory = λ a. a + 1;
}

-- The other thread, which swaps back.
abbrev calling_back : X86.Cpu
calling_back = record (X86.fast_swap_context 77 calling) { rdi = 2000; rsi = 1000; rbx = 30 }

-- The other thread, which ends.
abbrev ending : X86.Cpu
ending = record (X86.fast_swap_context 77 calling) { rdi = 1000 }

fast_swap_context-restores_example :
    X86.fast_swap_context 77 calling
    ≡ record (X86.Switch.loaded (X86.Layout.read_ctx 2000 calling.memory) calling) {
      rax = 77;
      memory = X86.Layout.write_ctx 1000 (X86.Switch.saved 77 calling) calling.memory;
    }
fast_swap_context-restores_example =
    X86.Switch.fast_swap_context-restores 77 calling (inl (omega arith))

fast_swap_context-returns_example :
    ((X86.fast_swap_context 77 calling_back).pc ≡ 77)
    × X86.Switch.ReturnsTo calling
        (X86.exec X86.resume_code (X86.fast_swap_context 77 calling_back))
unfolding X86.fast_swap_context
fast_swap_context-returns_example =
    X86.Switch.fast_swap_context-returns 77 calling calling_back (inl (omega arith)) (λ k a b. refl)
      refl refl (inr (omega arith)) (inr (omega arith))

fast_restore_context-returns_example :
    ((X86.fast_restore_context ending).pc ≡ 77)
    × X86.Switch.ReturnsTo calling (X86.exec X86.resume_code (X86.fast_restore_context ending))
unfolding X86.fast_swap_context
fast_restore_context-returns_example =
    X86.Switch.fast_restore_context-returns 77 calling ending (inl (omega arith)) (λ k a b. refl)
      refl refl

-- A thread with a stack that ends at 65_544, before it runs.
abbrev fresh : X86.Cpu
fresh = record calling {
  rdi = 1000;
  memory = λ a. if a == 1000 then 400 else if a == 1008 then 65528 else 0;
}

fast_ctx_init-starts_example :
    let e = X86.fast_restore_context fresh in
    (e.pc ≡ 400)
    × (e.rsp % 16 ≡ 8)
    × (65544 ≤ e.rsp + 23)
    × (e.rsp + 8 ≤ 65544)
    × (e.memory e.rsp ≡ 0)
unfolding X86.fast_ctx_init
fast_ctx_init-starts_example =
    X86.Switch.fast_ctx_init-starts 65544 400 fresh (λ a. 9) (omega arith) (omega arith) refl refl

abbrev arm_calling : Arm.Cpu
arm_calling = record {
  pc = 1;
  x0 = 1000;
  x1 = 2000;
  x9 = 2;
  x19 = 3;
  x20 = 4;
  x21 = 5;
  x22 = 6;
  x23 = 7;
  x24 = 8;
  x25 = 9;
  x26 = 10;
  x27 = 11;
  x28 = 12;
  x29 = 13;
  x30 = 14;
  sp = 8000;
  memory = λ a. a + 1;
}

abbrev arm_calling_back : Arm.Cpu
arm_calling_back = record (Arm.fast_swap_context arm_calling) { x0 = 2000; x1 = 1000; x19 = 30 }

swap_context-restores_example :
    Arm.fast_swap_context arm_calling
    ≡ record (Arm.Switch.loaded (Arm.Layout.read_ctx 2000 arm_calling.memory) arm_calling) {
      memory = Arm.Layout.write_ctx 1000 (Arm.Switch.saved arm_calling) arm_calling.memory;
    }
swap_context-restores_example = Arm.Switch.swap_context-restores arm_calling (inl (omega arith))

abbrev arm_fresh : Arm.Cpu
arm_fresh = record arm_calling {
  memory = λ a. if a == 1000 then 400 else if a == 1008 then 65536 else 0;
}

ctx_init-starts_example :
    let e = Arm.fast_restore_context arm_fresh in
    (e.pc ≡ 400) × (e.sp % 16 ≡ 0) × (e.sp ≤ 65544) × (65544 < e.sp + 16)
unfolding Arm.fast_ctx_init
ctx_init-starts_example = Arm.Switch.ctx_init-starts 65544 400 arm_fresh refl
