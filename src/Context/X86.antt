-- ===== src/Context/X86.antt =====
-- include/context.h and src/context.S for x86-64: `struct fast_ctx`, `fast_ctx_init`, and the
-- instructions of `fast_swap_context` and `fast_restore_context`.
pub mod Layout
pub mod Switch
use user_level_thread_librar.Base.{ℕ, ◌+◌, ◌-◌, ◌%◌, List, [], ◌∷◌, update}
use user_level_thread_librar.Context.{Memory, word_mod, align_down}

-- `struct fast_ctx`
pub record FastCtx : Type 0 where
  pub rip : ℕ
  pub rsp : ℕ
  pub rbx : ℕ
  pub rbp : ℕ
  pub r12 : ℕ
  pub r13 : ℕ
  pub r14 : ℕ
  pub r15 : ℕ

-- The stack pointer of a new thread: a fake return address lies below the aligned top.
abbrev pub initial_sp : ℕ → ℕ
initial_sp stack_top = (align_down stack_top + (word_mod - 8)) % word_mod

-- The initialised context, and the memory with the fake return address.
unfoldable pub fast_ctx_init : ℕ → ℕ → Memory → FastCtx × Memory
fast_ctx_init stack_top start m =
    let sp = initial_sp stack_top in
    (
      record { rip = start; rsp = sp; rbx = 0; rbp = 0; r12 = 0; r13 = 0; r14 = 0; r15 = 0 },
      update m sp 0,
    )

-- The registers that the code names, and the memory. `pc` is the address that it goes on at.
pub record Cpu : Type 0 where
  pub pc : ℕ
  pub rax : ℕ
  pub rdi : ℕ
  pub rsi : ℕ
  pub rbx : ℕ
  pub rbp : ℕ
  pub rsp : ℕ
  pub r12 : ℕ
  pub r13 : ℕ
  pub r14 : ℕ
  pub r15 : ℕ
  pub memory : Memory

pub data Reg : Type 0 where
  rax rdi rsi rbx rbp rsp r12 r13 r14 r15 : Reg

abbrev pub get : Reg → Cpu → ℕ
get rax c = c.rax
get rdi c = c.rdi
get rsi c = c.rsi
get rbx c = c.rbx
get rbp c = c.rbp
get rsp c = c.rsp
get r12 c = c.r12
get r13 c = c.r13
get r14 c = c.r14
get r15 c = c.r15

abbrev pub set : Reg → ℕ → Cpu → Cpu
set rax v c = record c { rax = v }
set rdi v c = record c { rdi = v }
set rsi v c = record c { rsi = v }
set rbx v c = record c { rbx = v }
set rbp v c = record c { rbp = v }
set rsp v c = record c { rsp = v }
set r12 v c = record c { r12 = v }
set r13 v c = record c { r13 = v }
set r14 v c = record c { r14 = v }
set r15 v c = record c { r15 = v }

-- `leaq label(%rip), r`; `movq r, o(b)`; `movq o(b), r`; `jmpq *o(b)`; `ret`.
pub data Instr : Type 0 where
  leaq : ℕ → Reg → Instr
  store : Reg → ℕ → Reg → Instr
  load : ℕ → Reg → Reg → Instr
  jmpq : ℕ → Reg → Instr
  ret : Instr

abbrev pub step : Instr → Cpu → Cpu
step (leaq label r) c = set r label c
step (store r o b) c = record c { memory = update c.memory (get b c + o) (get r c) }
step (load o b r) c = set r (c.memory (get b c + o)) c
step (jmpq o b) c = record c { pc = c.memory (get b c + o) }
step ret c = record c { pc = c.memory c.rsp; rsp = (c.rsp + 8) % word_mod }

-- Code without a jump but at its end.
abbrev pub exec : List Instr → Cpu → Cpu
exec [] c = c
exec (i ∷ code) c = exec code (step i c)

-- `fast_swap_context` up to its jump; `resume` is the address of `.Lresume`.
abbrev pub swap_code : ℕ → List Instr
swap_code resume =
    leaq resume rax
    ∷ store rax 0 rdi
    ∷ store rsp 8 rdi
    ∷ store rbx 16 rdi
    ∷ store rbp 24 rdi
    ∷ store r12 32 rdi
    ∷ store r13 40 rdi
    ∷ store r14 48 rdi
    ∷ store r15 56 rdi
    ∷ load 16 rsi rbx
    ∷ load 24 rsi rbp
    ∷ load 32 rsi r12
    ∷ load 40 rsi r13
    ∷ load 48 rsi r14
    ∷ load 56 rsi r15
    ∷ load 8 rsi rsp
    ∷ jmpq 0 rsi
    ∷ []

-- The code at `.Lresume`.
abbrev pub resume_code : List Instr
resume_code = ret ∷ []

abbrev pub restore_code : List Instr
restore_code =
    load 16 rdi rbx
    ∷ load 24 rdi rbp
    ∷ load 32 rdi r12
    ∷ load 40 rdi r13
    ∷ load 48 rdi r14
    ∷ load 56 rdi r15
    ∷ load 8 rdi rsp
    ∷ jmpq 0 rdi
    ∷ []

unfoldable pub fast_swap_context : ℕ → Cpu → Cpu
fast_swap_context resume c = exec (swap_code resume) c

unfoldable pub fast_restore_context : Cpu → Cpu
fast_restore_context c = exec restore_code c
