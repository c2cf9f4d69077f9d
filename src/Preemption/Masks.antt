-- ===== src/Preemption/Masks.antt =====
-- src/preemption.c: what a sequence of blocks and unblocks leaves blocked.
use user_level_thread_librar.Base.{
  ℕ, zero, suc, ◌≡◌, refl, true, false, not, ◌&&◌, ◌||◌, ◌==◌, arith,
}
use user_level_thread_librar.Preemption.{
  Signals, sigvtalrm, preem_block, preem_unblock, preem_mask_init, init_prem,
}

-- `preem_mask_init` has run.
abbrev pub IsArmed : Signals → Type 0
IsArmed g = (n : ℕ) → g.sigvtalrm_mask n ≡ (n == sigvtalrm)

abbrev pub IsBlocked : ℕ → Signals → Type 0
IsBlocked n g = g.mask n ≡ true

-- So many calls of `preem_block`, one inside the other.
unfoldable pub blocks : ℕ → Signals → Signals
blocks zero g = g
blocks (suc n) g = preem_block (blocks n g)

blocks-keep :
    (n : ℕ) (g : Signals)
    → ((k : ℕ) → (blocks n g).sigvtalrm_mask k ≡ g.sigvtalrm_mask k)
      × ((k : ℕ)
          → ((blocks n g).mask k && not (g.sigvtalrm_mask k))
            ≡ (g.mask k && not (g.sigvtalrm_mask k)))
unfolding blocks preem_block
blocks-keep zero g = (λ k. refl, λ k. refl)
blocks-keep (suc n) g = let ih = blocks-keep n g in (ih.0, λ k. ground (arith, ih.0 k, ih.1 k))

-- After any number of nested blocks one unblock makes SIGVTALRM deliverable again, and every other
-- signal is blocked or not as it was before: the blocks are not counted.
pub preem_unblock-blocks :
    (n : ℕ) (g : Signals)
    → IsArmed g
    → ((preem_unblock (blocks n g)).mask sigvtalrm ≡ false)
      × ((k : ℕ) → (k == sigvtalrm) ≡ false → (preem_unblock (blocks n g)).mask k ≡ g.mask k)
unfolding preem_unblock
preem_unblock-blocks n g a =
    let keep = blocks-keep n g in
    (
      ground (arith, keep.0 sigvtalrm, a sigvtalrm),
      λ k o. ground (arith, keep.0 k, keep.1 k, a k, o),
    )

pub init_prem-IsArmed : (func us : ℕ) (g : Signals) → IsArmed (init_prem func us g)
unfolding init_prem preem_mask_init
init_prem-IsArmed func us g n = ground arith

-- What blocking and unblocking do to one signal.
module _ (g : Signals) (a : IsArmed g) (k : ℕ) where
  pub mask-block : (preem_block g).mask k ≡ (g.mask k || k == sigvtalrm)
  unfolding preem_block
  mask-block = ground (arith, a k)

  pub mask-unblock : (preem_unblock g).mask k ≡ (g.mask k && not (k == sigvtalrm))
  unfolding preem_unblock
  mask-unblock = ground (arith, a k)

pub IsArmed-block : (g : Signals) → IsArmed g → IsArmed (preem_block g)
unfolding preem_block
IsArmed-block g a = a

pub IsArmed-unblock : (g : Signals) → IsArmed g → IsArmed (preem_unblock g)
unfolding preem_unblock
IsArmed-unblock g a = a
