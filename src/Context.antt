-- ===== src/Context.antt =====
-- include/context.h and src/context.S: the registers that a context switch saves and restores, for
-- x86-64 (X86) and for AArch64 (Arm).
pub mod X86
pub mod Arm
use user_level_thread_librar.Base.{ℕ, ◌+◌, ◌*◌, ◌/◌, ◌^◌, ◌-◌, ◌%◌, ◌≤◌, ◌<◌, ◌⊎◌, ◌≡◌, update}

-- The 64-bit words of memory by their addresses, which are multiples of 8.
abbrev pub Memory : Type 0
Memory = ℕ → ℕ

abbrev pub word_mod : ℕ
word_mod = 2 ^ 64

-- `sp &= ~(uintptr_t)15`
abbrev pub align_down : ℕ → ℕ
align_down sp = sp / 16 * 16

-- The structures of `size` bytes at two addresses have no word in common.
abbrev pub AreApart : ℕ → ℕ → ℕ → Type 0
AreApart size a b = (a + size ≤ b) ⊎ (b + size ≤ a)

-- Two memories have the same words from `a` on, up to and without `a + size`.
abbrev pub AgreesOn : ℕ → ℕ → Memory → Memory → Type 0
AgreesOn a size m n = (k : ℕ) → a ≤ k → k < a + size → n k ≡ m k
