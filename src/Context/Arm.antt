-- ===== src/Context/Arm.antt =====
-- include/context.h and src/context.S for AArch64: `struct fast_ctx`, `fast_ctx_init`, and the
-- instructions of `fast_swap_context` and `fast_restore_context`.
pub mod Layout
pub mod Switch
use user_level_thread_librar.Base.{ℕ, ◌+◌, List, [], ◌∷◌, update}
use user_level_thread_librar.Context.{Memory, align_down}

-- `struct fast_ctx`
pub record FastCtx : Type 0 where
  pub lr : ℕ
  pub sp : ℕ
  pub x19 : ℕ
  pub x20 : ℕ
  pub x21 : ℕ
  pub x22 : ℕ
  pub x23 : ℕ
  pub x24 : ℕ
  pub x25 : ℕ
  pub x26 : ℕ
  pub x27 : ℕ
  pub x28 : ℕ
  pub fp : ℕ

unfoldable pub fast_ctx_init : ℕ → ℕ → FastCtx
fast_ctx_init stack_top start = record {
  lr = start;
  sp = align_down stack_top;
  x19 = 0;
  x20 = 0;
  x21 = 0;
  x22 = 0;
  x23 = 0;
  x24 = 0;
  x25 = 0;
  x26 = 0;
  x27 = 0;
  x28 = 0;
  fp = 0;
}

-- The registers that the code names, and the memory. `pc` is the address that it goes on at.
pub record Cpu : Type 0 where
  pub pc : ℕ
  pub x0 : ℕ
  pub x1 : ℕ
  pub x9 : ℕ
  pub x19 : ℕ
  pub x20 : ℕ
  pub x21 : ℕ
  pub x22 : ℕ
  pub x23 : ℕ
  pub x24 : ℕ
  pub x25 : ℕ
  pub x26 : ℕ
  pub x27 : ℕ
  pub x28 : ℕ
  pub x29 : ℕ
  pub x30 : ℕ
  pub sp : ℕ
  pub memory : Memory

pub data Reg : Type 0 where
  x0 x1 x9 x19 x20 x21 x22 x23 x24 x25 x26 x27 x28 x29 x30 sp : Reg

abbrev pub get : Reg → Cpu → ℕ
get x0 c = c.x0
get x1 c = c.x1
get x9 c = c.x9
get x19 c = c.x19
get x20 c = c.x20
get x21 c = c.x21
get x22 c = c.x22
get x23 c = c.x23
get x24 c = c.x24
get x25 c = c.x25
get x26 c = c.x26
get x27 c = c.x27
get x28 c = c.x28
get x29 c = c.x29
get x30 c = c.x30
get sp c = c.sp

abbrev pub set : Reg → ℕ → Cpu → Cpu
set x0 v c = record c { x0 = v }
set x1 v c = record c { x1 = v }
set x9 v c = record c { x9 = v }
set x19 v c = record c { x19 = v }
set x20 v c = record c { x20 = v }
set x21 v c = record c { x21 = v }
set x22 v c = record c { x22 = v }
set x23 v c = record c { x23 = v }
set x24 v c = record c { x24 = v }
set x25 v c = record c { x25 = v }
set x26 v c = record c { x26 = v }
set x27 v c = record c { x27 = v }
set x28 v c = record c { x28 = v }
set x29 v c = record c { x29 = v }
set x30 v c = record c { x30 = v }
set sp v c = record c { sp = v }

-- `mov d, s`; `str r, [b, #o]`; `ldr r, [b, #o]`; `stp` and `ldp` of two registers; `ret`.
pub data Instr : Type 0 where
  mov : Reg → Reg → Instr
  str ldr : Reg → Reg → ℕ → Instr
  stp ldp : Reg → Reg → Reg → ℕ → Instr
  ret : Instr

abbrev pub step : Instr → Cpu → Cpu
step (mov d s) c = set d (get s c) c
step (str r b o) c = record c { memory = update c.memory (get b c + o) (get r c) }
step (ldr r b o) c = set r (c.memory (get b c + o)) c
step (stp r q b o) c = record c {
  memory = update (update c.memory (get b c + o) (get r c)) (get b c + (o + 8)) (get q c);
}
step (ldp r q b o) c = set q (c.memory (get b c + (o + 8))) (set r (c.memory (get b c + o)) c)
step ret c = record c { pc = c.x30 }

-- Code without a jump but at its end.
abbrev pub exec : List Instr → Cpu → Cpu
exec [] c = c
exec (i ∷ code) c = exec code (step i c)

abbrev pub swap_code : List Instr
swap_code =
    str x30 x0 0
    ∷ mov x9 sp
    ∷ str x9 x0 8
    ∷ stp x19 x20 x0 16
    ∷ stp x21 x22 x0 32
    ∷ stp x23 x24 x0 48
    ∷ stp x25 x26 x0 64
    ∷ stp x27 x28 x0 80
    ∷ str x29 x0 96
    ∷ ldp x19 x20 x1 16
    ∷ ldp x21 x22 x1 32
    ∷ ldp x23 x24 x1 48
    ∷ ldp x25 x26 x1 64
    ∷ ldp x27 x28 x1 80
    ∷ ldr x29 x1 96
    ∷ ldr x9 x1 8
    ∷ mov sp x9
    ∷ ldr x30 x1 0
    ∷ ret
    ∷ []

abbrev pub restore_code : List Instr
restore_code =
    ldp x19 x20 x0 16
    ∷ ldp x21 x22 x0 32
    ∷ ldp x23 x24 x0 48
    ∷ ldp x25 x26 x0 64
    ∷ ldp x27 x28 x0 80
    ∷ ldr x29 x0 96
    ∷ ldr x9 x0 8
    ∷ mov sp x9
    ∷ ldr x30 x0 0
    ∷ ret
    ∷ []

unfoldable pub fast_swap_context : Cpu → Cpu
fast_swap_context c = exec swap_code c

unfoldable pub fast_restore_context : Cpu → Cpu
fast_restore_context c = exec restore_code c
