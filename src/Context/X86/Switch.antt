-- ===== src/Context/X86/Switch.antt =====
-- src/context.S for x86-64: what the two functions do to a `struct fast_ctx`, and how a call of
-- `fast_swap_context` returns.
use user_level_thread_librar.Base.{
  ℕ, ◌+◌, ◌%◌, ◌≤◌, ◌<◌, ◌⊎◌, ◌≡◌, refl, ap, sym, subst, ◌∙◌, arith,
}
use user_level_thread_librar.Context.{Memory, word_mod, align_down, AreApart, AgreesOn}
use user_level_thread_librar.Context.X86.Layout.{
  read_ctx, write_ctx, write_ctx-outside, read_ctx-agree, read-write, read-write-apart,
}
use user_level_thread_librar.Context.X86.{
  FastCtx, Cpu, exec, resume_code, initial_sp, fast_ctx_init, fast_swap_context,
  fast_restore_context,
}

-- The processor as a context that goes on at `rip`.
abbrev pub saved : ℕ → Cpu → FastCtx
saved rip c = record {
  rip = rip;
  rsp = c.rsp;
  rbx = c.rbx;
  rbp = c.rbp;
  r12 = c.r12;
  r13 = c.r13;
  r14 = c.r14;
  r15 = c.r15;
}

-- The processor goes on with a context.
abbrev pub loaded : FastCtx → Cpu → Cpu
loaded x c = record c {
  pc = x.rip;
  rsp = x.rsp;
  rbx = x.rbx;
  rbp = x.rbp;
  r12 = x.r12;
  r13 = x.r13;
  r14 = x.r14;
  r15 = x.r15;
}

-- On x86-64 `fast_swap_context`, with two structures that do not overlap, stores the stack pointer
-- and the callee-saved registers with the address of `.Lresume` in the first, at the offsets of
-- include/context.h, and goes on with those of the second; beyond that it changes only rax.
pub fast_swap_context-restores :
    (resume : ℕ) (c : Cpu)
    → AreApart 64 c.rdi c.rsi
    → fast_swap_context resume c ≡ record (loaded (read_ctx c.rsi c.memory) c) {
      rax = resume;
      memory = write_ctx c.rdi (saved resume c) c.memory;
    }
unfolding fast_swap_context
fast_swap_context-restores resume c p =
    ap
      (λ x. record (loaded x c) {
        rax = resume;
        memory = write_ctx c.rdi (saved resume c) c.memory;
      })
      (read-write-apart c.rdi c.rsi (saved resume c) c.memory p)

fast_restore_context-loads : (c : Cpu) → fast_restore_context c ≡ loaded (read_ctx c.rdi c.memory) c
unfolding fast_restore_context
fast_restore_context-loads c = refl

-- `c` is called with the return address at its stack pointer, `d` is where it has returned to:
-- the registers that a call keeps are as they were.
pub record ReturnsTo (c d : Cpu) : Type 0 where
  pub pc : d.pc ≡ c.memory c.rsp
  pub rsp : d.rsp ≡ (c.rsp + 8) % word_mod
  pub rbx : d.rbx ≡ c.rbx
  pub rbp : d.rbp ≡ c.rbp
  pub r12 : d.r12 ≡ c.r12
  pub r13 : d.r13 ≡ c.r13
  pub r14 : d.r14 ≡ c.r14
  pub r15 : d.r15 ≡ c.r15

-- The processor goes on at `.Lresume` with the context that `c` saved.
resumes :
    (resume : ℕ) (c d : Cpu)
    → d.memory c.rsp ≡ c.memory c.rsp
    → ReturnsTo c (exec resume_code (loaded (saved resume c) d))
resumes resume c d h = record {
  pc = h;
  rsp = refl;
  rbx = refl;
  rbp = refl;
  r12 = refl;
  r13 = refl;
  r14 = refl;
  r15 = refl;
}

module _ (resume : ℕ) (c d : Cpu) (apart : AreApart 64 c.rdi c.rsi)
    (kept : AgreesOn c.rdi 64 (fast_swap_context resume c).memory d.memory) where
  -- The structure that the first swap has filled is still there.
  still_saved : read_ctx c.rdi d.memory ≡ saved resume c
  still_saved =
      read_ctx-agree c.rdi (fast_swap_context resume c).memory d.memory kept
      ∙ ap (λ (e : Cpu). read_ctx c.rdi e.memory) (fast_swap_context-restores resume c apart)
      ∙ read-write c.rdi (saved resume c) c.memory

  abbrev after_swap : Cpu
  after_swap = record d { rax = resume; memory = write_ctx d.rdi (saved resume d) d.memory }

  swaps_back :
      d.rsi ≡ c.rdi
      → AreApart 64 d.rdi d.rsi
      → fast_swap_context resume d ≡ loaded (saved resume c) after_swap
  swaps_back e p =
      fast_swap_context-restores resume d p
      ∙ ap (λ x. loaded x after_swap) (ap (λ a. read_ctx a d.memory) e ∙ still_saved)

  loads_back : d.rdi ≡ c.rdi → fast_restore_context d ≡ loaded (saved resume c) d
  loads_back e =
      fast_restore_context-loads d
      ∙ ap (λ x. loaded x d) (ap (λ a. read_ctx a d.memory) e ∙ still_saved)

-- On x86-64, when another thread later swaps to the structure that a call of `fast_swap_context` has
-- filled, and neither that structure nor the return address on its stack was overwritten, the call
-- returns to its caller with the stack popped and every callee-saved register as it was.
pub fast_swap_context-returns :
    (resume : ℕ) (c d : Cpu)
    → AreApart 64 c.rdi c.rsi
    → AgreesOn c.rdi 64 (fast_swap_context resume c).memory d.memory
    → d.memory c.rsp ≡ c.memory c.rsp
    → d.rsi ≡ c.rdi
    → AreApart 64 d.rdi d.rsi
    → (c.rsp < d.rdi) ⊎ (d.rdi + 64 ≤ c.rsp)
    → ((fast_swap_context resume d).pc ≡ resume)
      × ReturnsTo c (exec resume_code (fast_swap_context resume d))
fast_swap_context-returns resume c d apart kept stack e p out =
    subst (λ f. (f.pc ≡ resume) × ReturnsTo c (exec resume_code f))
      (sym (swaps_back resume c d apart kept e p))
      (
        refl,
        resumes resume c (after_swap resume c d apart kept)
            (write_ctx-outside d.rdi c.rsp (saved resume d) d.memory out ∙ stack),
      )

-- The same on x86-64 when the other thread ends, and `fast_restore_context` gets the structure.
pub fast_restore_context-returns :
    (resume : ℕ) (c d : Cpu)
    → AreApart 64 c.rdi c.rsi
    → AgreesOn c.rdi 64 (fast_swap_context resume c).memory d.memory
    → d.memory c.rsp ≡ c.memory c.rsp
    → d.rdi ≡ c.rdi
    → ((fast_restore_context d).pc ≡ resume)
      × ReturnsTo c (exec resume_code (fast_restore_context d))
fast_restore_context-returns resume c d apart kept stack e =
    subst (λ f. (f.pc ≡ resume) × ReturnsTo c (exec resume_code f))
      (sym (loads_back resume c d apart kept e)) (refl, resumes resume c d stack)

initial_sp-align_down :
    (stack_top : ℕ)
    → 16 ≤ stack_top
    → stack_top < word_mod
    → initial_sp stack_top + 8 ≡ align_down stack_top
initial_sp-align_down stack_top low high = omega arith

starts : (x : FastCtx) (d : Cpu) → read_ctx d.rdi d.memory ≡ x → fast_restore_context d ≡ loaded x d
starts x d e = fast_restore_context-loads d ∙ ap (λ y. loaded y d) e

-- On x86-64 a thread whose context `fast_ctx_init` has made, for a top of at least 16, begins at its start with the stack pointer 8 below a multiple of 16, as after a call,
-- inside the stack and above it the fake return address 0.
pub fast_ctx_init-starts :
    (stack_top start : ℕ) (d : Cpu) (m : Memory)
    → 16 ≤ stack_top
    → stack_top < word_mod
    → read_ctx d.rdi d.memory ≡ (fast_ctx_init stack_top start m).0
    → d.memory (initial_sp stack_top) ≡ (fast_ctx_init stack_top start m).1 (initial_sp stack_top)
    → let e = fast_restore_context d in
      (e.pc ≡ start)
      × (e.rsp % 16 ≡ 8)
      × (stack_top ≤ e.rsp + 23)
      × (e.rsp + 8 ≤ stack_top)
      × (e.memory e.rsp ≡ 0)
unfolding fast_ctx_init
fast_ctx_init-starts stack_top start d m low high x w =
    let sp = initial_sp-align_down stack_top low high in
    subst
      (λ e.
        (e.pc ≡ start)
        × (e.rsp % 16 ≡ 8)
        × (stack_top ≤ e.rsp + 23)
        × (e.rsp + 8 ≤ stack_top)
        × (e.memory e.rsp ≡ 0))
      (sym (starts (fast_ctx_init stack_top start m).0 d x))
      (refl, omega (arith, sp), omega (arith, sp), omega (arith, sp), w ∙ ground arith)
