-- ===== src/Context/Arm/Layout.antt =====
-- include/context.h for AArch64: where the members of `struct fast_ctx` stand in memory.
use user_level_thread_librar.Base.{ℕ, ◌+◌, ◌≤◌, ◌<◌, ◌⊎◌, ◌≡◌, arith, update}
use user_level_thread_librar.Context.{Memory, AreApart, AgreesOn}
use user_level_thread_librar.Context.Arm.{FastCtx}

-- The structure at an address, with the offsets of include/context.h.
abbrev pub read_ctx : ℕ → Memory → FastCtx
read_ctx a m = record {
  lr = m (a + 0);
  sp = m (a + 8);
  x19 = m (a + 16);
  x20 = m (a + 24);
  x21 = m (a + 32);
  x22 = m (a + 40);
  x23 = m (a + 48);
  x24 = m (a + 56);
  x25 = m (a + 64);
  x26 = m (a + 72);
  x27 = m (a + 80);
  x28 = m (a + 88);
  fp = m (a + 96);
}

abbrev pub write_ctx : ℕ → FastCtx → Memory → Memory
write_ctx a x m =
    let m0 = update m (a + 0) x.lr in
    let m1 = update m0 (a + 8) x.sp in
    let m2 = update m1 (a + 16) x.x19 in
    let m3 = update m2 (a + 24) x.x20 in
    let m4 = update m3 (a + 32) x.x21 in
    let m5 = update m4 (a + 40) x.x22 in
    let m6 = update m5 (a + 48) x.x23 in
    let m7 = update m6 (a + 56) x.x24 in
    let m8 = update m7 (a + 64) x.x25 in
    let m9 = update m8 (a + 72) x.x26 in
    let m10 = update m9 (a + 80) x.x27 in
    let m11 = update m10 (a + 88) x.x28 in update m11 (a + 96) x.fp

write_ctx-outside :
    (a k : ℕ) (x : FastCtx) (m : Memory) → (k < a) ⊎ (a + 104 ≤ k) → write_ctx a x m k ≡ m k
write_ctx-outside a k x m p = ground (arith, p)

pub read_ctx-agree : (a : ℕ) (m n : Memory) → AgreesOn a 104 m n → read_ctx a n ≡ read_ctx a m
read_ctx-agree a m n h = ground (
  arith,
  h (a + 0) (omega arith) (omega arith),
  h (a + 8) (omega arith) (omega arith),
  h (a + 16) (omega arith) (omega arith),
  h (a + 24) (omega arith) (omega arith),
  h (a + 32) (omega arith) (omega arith),
  h (a + 40) (omega arith) (omega arith),
  h (a + 48) (omega arith) (omega arith),
  h (a + 56) (omega arith) (omega arith),
  h (a + 64) (omega arith) (omega arith),
  h (a + 72) (omega arith) (omega arith),
  h (a + 80) (omega arith) (omega arith),
  h (a + 88) (omega arith) (omega arith),
  h (a + 96) (omega arith) (omega arith),
)

module _ (a : ℕ) (x : FastCtx) (m : Memory) where
  read_lr : write_ctx a x m (a + 0) ≡ x.lr
  read_lr = ground arith

  read_sp : write_ctx a x m (a + 8) ≡ x.sp
  read_sp = ground arith

  read_x19 : write_ctx a x m (a + 16) ≡ x.x19
  read_x19 = ground arith

  read_x20 : write_ctx a x m (a + 24) ≡ x.x20
  read_x20 = ground arith

  read_x21 : write_ctx a x m (a + 32) ≡ x.x21
  read_x21 = ground arith

  read_x22 : write_ctx a x m (a + 40) ≡ x.x22
  read_x22 = ground arith

  read_x23 : write_ctx a x m (a + 48) ≡ x.x23
  read_x23 = ground arith

  read_x24 : write_ctx a x m (a + 56) ≡ x.x24
  read_x24 = ground arith

  read_x25 : write_ctx a x m (a + 64) ≡ x.x25
  read_x25 = ground arith

  read_x26 : write_ctx a x m (a + 72) ≡ x.x26
  read_x26 = ground arith

  read_x27 : write_ctx a x m (a + 80) ≡ x.x27
  read_x27 = ground arith

  read_x28 : write_ctx a x m (a + 88) ≡ x.x28
  read_x28 = ground arith

  read_fp : write_ctx a x m (a + 96) ≡ x.fp
  read_fp = ground arith

pub read-write : (a : ℕ) (x : FastCtx) (m : Memory) → read_ctx a (write_ctx a x m) ≡ x
read-write a x m = λ i. record {
  lr = read_lr a x m i;
  sp = read_sp a x m i;
  x19 = read_x19 a x m i;
  x20 = read_x20 a x m i;
  x21 = read_x21 a x m i;
  x22 = read_x22 a x m i;
  x23 = read_x23 a x m i;
  x24 = read_x24 a x m i;
  x25 = read_x25 a x m i;
  x26 = read_x26 a x m i;
  x27 = read_x27 a x m i;
  x28 = read_x28 a x m i;
  fp = read_fp a x m i;
}

pub read-write-apart :
    (a b : ℕ) (x : FastCtx) (m : Memory)
    → AreApart 104 a b
    → read_ctx b (write_ctx a x m) ≡ read_ctx b m
read-write-apart a b x m p =
    read_ctx-agree b m (write_ctx a x m)
      (λ k l h. write_ctx-outside a k x m (ground (arith, p, l, h)))
