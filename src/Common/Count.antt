-- ===== src/Common/Count.antt =====
-- How often a descriptor stands in a table.
use Prim.Native.Nat.{ℕ, zero, suc, ◌+◌, ◌<◌}
use mathlib.Core.Path.{◌≡◌, refl}
use mathlib.Core.Logic.{◌≢◌}
use mathlib.Core.Bool.{false}
use mathlib.Core.List.{List, [], ◌∷◌}
use native.Mathlib.Omega.{arith}
use linux_cpp.Common.Tests.{if◌then◌else◌}
use linux_cpp.Common.Lists.{length, get_or, set}
use linux_cpp.Common.Int.{ℤ, pos, negsuc, ltz, eqb}

abbrev pub hit : ℤ → ℤ → ℕ
hit a b = if eqb a b then 1 else 0

abbrev pub count : ℤ → List ℤ → ℕ
count fd [] = 0
count fd (x ∷ xs) = hit x fd + count fd xs

pub count-set :
    (fd : ℤ) (xs : List ℤ) (i : ℕ) (v d : ℤ)
    → i < length xs
    → count fd (set xs i v) + hit (get_or xs i d) fd ≡ count fd xs + hit v fd
count-set fd [] i v d h = absurd (omega arith)
count-set fd (x ∷ xs) zero v d h = omega arith
count-set fd (x ∷ xs) (suc i) v d h = omega (arith, count-set fd xs i v d (omega arith))

-- A descriptor that is neither positive nor zero is no descriptor.
pub hit-not_positive : (fd : ℤ) (n : ℕ) → fd ≢ pos 0 → ltz (pos 0) fd ≡ false → hit fd (pos n) ≡ 0
hit-not_positive (pos zero) n h k = absurd (h refl)
hit-not_positive (pos (suc m)) n h k = absurd (ground (arith, k))
hit-not_positive (negsuc m) n h k = refl
