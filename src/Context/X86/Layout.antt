-- ===== src/Context/X86/Layout.antt =====
-- include/context.h for x86-64: where the members of `struct fast_ctx` stand in memory.
use user_level_thread_librar.Base.{ℕ, ◌+◌, ◌≤◌, ◌<◌, ◌⊎◌, ◌≡◌, arith, update}
use user_level_thread_librar.Context.{Memory, AreApart, AgreesOn}
use user_level_thread_librar.Context.X86.{FastCtx}

-- The structure at an address, with the offsets of include/context.h.
abbrev pub read_ctx : ℕ → Memory → FastCtx
read_ctx a m = record {
  rip = m (a + 0);
  rsp = m (a + 8);
  rbx = m (a + 16);
  rbp = m (a + 24);
  r12 = m (a + 32);
  r13 = m (a + 40);
  r14 = m (a + 48);
  r15 = m (a + 56);
}

abbrev pub write_ctx : ℕ → FastCtx → Memory → Memory
write_ctx a x m =
    let m0 = update m (a + 0) x.rip in
    let m1 = update m0 (a + 8) x.rsp in
    let m2 = update m1 (a + 16) x.rbx in
    let m3 = update m2 (a + 24) x.rbp in
    let m4 = update m3 (a + 32) x.r12 in
    let m5 = update m4 (a + 40) x.r13 in
    let m6 = update m5 (a + 48) x.r14 in update m6 (a + 56) x.r15

-- A word outside the structure is kept.
pub write_ctx-outside :
    (a k : ℕ) (x : FastCtx) (m : Memory) → (k < a) ⊎ (a + 64 ≤ k) → write_ctx a x m k ≡ m k
write_ctx-outside a k x m p = ground (arith, p)

pub read_ctx-agree : (a : ℕ) (m n : Memory) → AgreesOn a 64 m n → read_ctx a n ≡ read_ctx a m
read_ctx-agree a m n h = ground (
  arith,
  h (a + 0) (omega arith) (omega arith),
  h (a + 8) (omega arith) (omega arith),
  h (a + 16) (omega arith) (omega arith),
  h (a + 24) (omega arith) (omega arith),
  h (a + 32) (omega arith) (omega arith),
  h (a + 40) (omega arith) (omega arith),
  h (a + 48) (omega arith) (omega arith),
  h (a + 56) (omega arith) (omega arith),
)

pub read-write : (a : ℕ) (x : FastCtx) (m : Memory) → read_ctx a (write_ctx a x m) ≡ x
read-write a x m = ground arith

-- Writing a structure apart from another one leaves that one.
pub read-write-apart :
    (a b : ℕ) (x : FastCtx) (m : Memory)
    → AreApart 64 a b
    → read_ctx b (write_ctx a x m) ≡ read_ctx b m
read-write-apart a b x m p =
    read_ctx-agree b m (write_ctx a x m)
      (λ k l h. write_ctx-outside a k x m (ground (arith, p, l, h)))
