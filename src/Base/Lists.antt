-- ===== src/Base/Lists.antt =====
-- Queues of addresses: membership as a test, removal, and lists without repetition.
use Prim.Native.Nat.{ℕ, suc, ◌+◌}
use mathlib.Core.Path.{◌≡◌, refl, ap}
use mathlib.Core.Logic.{◌⊎◌, inl, inr}
use mathlib.Core.Bool.{Bool, true, false, not, ◌&&◌, ◌||◌}
use mathlib.Core.List.{List, [], ◌∷◌, ◌++◌}
use native.Mathlib.Omega.{arith}
use user_level_thread_librar.Base.Tests.{◌==◌, if◌then◌else◌}

module _ {ℓ} {A : Type ℓ} where
  abbrev pub length : List A → ℕ
  length [] = 0
  length (x ∷ xs) = suc (length xs)

  pub length-append : (xs ys : List A) → length (xs ++ ys) ≡ length xs + length ys
  length-append [] ys = omega arith
  length-append (x ∷ xs) ys = omega (arith, length-append xs ys)

  -- How many items pass the test.
  abbrev pub count : (A → Bool) → List A → ℕ
  count test [] = 0
  count test (x ∷ xs) = let rest = count test xs in if test x then suc rest else rest

  pub count-append :
      (test : A → Bool) (xs ys : List A)
      → count test (xs ++ ys) ≡ count test xs + count test ys
  count-append test [] ys = omega arith
  count-append test (x ∷ xs) ys = ground (arith, count-append test xs ys)

  -- Both lists have the same items, each equally often: every test counts the same in both.
  abbrev pub SameItems : List A → List A → Type ℓ
  SameItems xs ys = (test : A → Bool) → count test xs ≡ count test ys

  -- `TAILQ_EMPTY`
  abbrev pub is_empty : List A → Bool
  is_empty [] = true
  is_empty (x ∷ xs) = false

  pub List-cases : (xs : List A) → (xs ≡ []) ⊎ ((y : A) × (ys : List A) × (xs ≡ y ∷ ys))
  List-cases [] = inl refl
  List-cases (y ∷ ys) = inr (y, ys, refl)

abbrev pub elem : ℕ → List ℕ → Bool
elem t [] = false
elem t (x ∷ xs) = t == x || elem t xs

-- `TAILQ_REMOVE`: the queue without the entry at that address.
unfoldable pub remove : ℕ → List ℕ → List ℕ
remove t [] = []
remove t (x ∷ xs) = if x == t then xs else x ∷ remove t xs

-- No address stands twice in the queue.
abbrev pub Distinct : List ℕ → Type 0
Distinct [] = Unit {0}
Distinct (x ∷ xs) = (elem x xs ≡ false) × Distinct xs

pub elem-append : (t : ℕ) (xs ys : List ℕ) → elem t (xs ++ ys) ≡ (elem t xs || elem t ys)
elem-append t [] ys = refl
elem-append t (x ∷ xs) ys = ground (arith, elem-append t xs ys)

pub elem-snoc : (t x : ℕ) (xs : List ℕ) → elem t (xs ++ x ∷ []) ≡ (elem t xs || t == x)
elem-snoc t x xs = ground (arith, elem-append t xs (x ∷ []))

pub Distinct-snoc :
    (x : ℕ) (xs : List ℕ) → elem x xs ≡ false → Distinct xs → Distinct (xs ++ x ∷ [])
Distinct-snoc x [] h d = (refl, tt)
Distinct-snoc x (y ∷ xs) h d =
    (ground (arith, elem-snoc y x xs), Distinct-snoc x xs (ground arith) d.1)

pub elem-remove :
    (t x : ℕ) (xs : List ℕ) → Distinct xs → elem t (remove x xs) ≡ (elem t xs && not (t == x))
unfolding remove
elem-remove t x [] d = refl
elem-remove t x (y ∷ xs) d = ground (arith, elem-remove t x xs d.1)

pub Distinct-remove : (x : ℕ) (xs : List ℕ) → Distinct xs → Distinct (remove x xs)
unfolding remove
Distinct-remove x [] d = tt
Distinct-remove x (y ∷ xs) d = ground (arith, elem-remove y x xs d.1, Distinct-remove x xs d.1)

module _ {ℓ} {A : Type ℓ} where
  pub append_nil : (xs : List A) → xs ++ [] ≡ xs
  append_nil [] = refl
  append_nil (x ∷ xs) = ap (λ l. x ∷ l) (append_nil xs)

  pub append_snoc : (xs : List A) (y : A) (zs : List A) → (xs ++ y ∷ []) ++ zs ≡ xs ++ y ∷ zs
  append_snoc [] y zs = refl
  append_snoc (x ∷ xs) y zs = ap (λ l. x ∷ l) (append_snoc xs y zs)

  pub append_between :
      (xs : List A) (y : A) (ys zs : List A) → (xs ++ y ∷ ys) ++ zs ≡ xs ++ y ∷ (ys ++ zs)
  append_between [] y ys zs = refl
  append_between (x ∷ xs) y ys zs = ap (λ l. x ∷ l) (append_between xs y ys zs)
