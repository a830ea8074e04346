-- ===== src/Common/Sum.antt =====
-- Sums of a weight over a list of threads.
use Prim.Native.Nat.{ℕ, zero, suc, ◌+◌, ◌≤◌, ◌<◌}
use mathlib.Core.Path.{◌≡◌, refl, ap}
use mathlib.Core.Logic.{◌≢◌, ◌⊎◌, inl, inr}
use mathlib.Core.List.{List, [], ◌∷◌}
use native.Mathlib.Omega.{arith}
use linux_cpp.Common.Lists.{length, get_or, set}

pub zero_or_positive : (n : ℕ) → (n ≡ 0) ⊎ (0 < n)
zero_or_positive n = omega arith

module _ {A : Type 0} (w : A → ℕ) where
  abbrev pub total : List A → ℕ
  total [] = 0
  total (x ∷ xs) = w x + total xs

  pub total-set :
      (xs : List A) (i : ℕ) (v d : A)
      → i < length xs
      → total (set xs i v) + w (get_or xs i d) ≡ total xs + w v
  total-set [] i v d h = absurd (omega arith)
  total-set (x ∷ xs) zero v d h = omega arith
  total-set (x ∷ xs) (suc i) v d h = omega (arith, total-set xs i v d (omega arith))

  pub le-total : (xs : List A) (i : ℕ) (d : A) → w d ≡ 0 → w (get_or xs i d) ≤ total xs
  le-total [] i d h = omega arith
  le-total (x ∷ xs) zero d h = omega arith
  le-total (x ∷ xs) (suc i) d h = omega (arith, le-total xs i d h)

  pub find_positive :
      (xs : List A) (d : A) → 0 < total xs → (i : ℕ) × (i < length xs) × (0 < w (get_or xs i d))
  find_positive [] d h = absurd (omega arith)
  find_positive (x ∷ xs) d h = elim (zero_or_positive (w x)) [
    | inl e ↦ (let (i, lt, k) = find_positive xs d (omega (arith, e)) in (suc i, omega arith, k))
    | inr k ↦ (0, omega arith, k)
  ]

  -- Two different threads.
  pub add-le-total :
      (xs : List A) (i j : ℕ) (d : A)
      → w d ≡ 0
      → i ≢ j
      → w (get_or xs i d) + w (get_or xs j d) ≤ total xs
  add-le-total [] i j d h ne = omega arith
  add-le-total (x ∷ xs) zero zero d h ne = absurd (ne refl)
  add-le-total (x ∷ xs) zero (suc j) d h ne = omega (arith, le-total xs j d h)
  add-le-total (x ∷ xs) (suc i) zero d h ne = omega (arith, le-total xs i d h)
  add-le-total (x ∷ xs) (suc i) (suc j) d h ne =
      omega (arith, add-le-total xs i j d h (λ e. ne (ap suc e)))

pub total_mono :
    {A : Type 0} (v w : A → ℕ) → ((x : A) → v x ≤ w x) → (xs : List A) → total v xs ≤ total w xs
total_mono v w h [] = omega arith
total_mono v w h (x ∷ xs) = omega (arith, h x, total_mono v w h xs)
