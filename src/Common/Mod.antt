-- ===== src/Common/Mod.antt =====
-- Counting around a ring.
use Prim.Native.Nat.{ℕ, suc, ◌%◌}
use mathlib.Core.Path.{◌≡◌}
use native.Mathlib.Nat.{mod-add-mod}
use native.Mathlib.Numerals.{towards_suc}

pub suc-mod : (n limit : ℕ) → suc (n % limit) % limit ≡ suc n % limit
suc-mod n limit = simp towards_suc at (mod-add-mod n limit 1)
