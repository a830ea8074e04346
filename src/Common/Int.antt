-- ===== src/Common/Int.antt =====
-- C's `int`: descriptors and results of system calls. `negsuc n` is -(n + 1).
use Prim.Native.Nat.{ℕ, suc, ◌+◌, ◌-◌, ◌*◌, ◌/◌, ◌%◌}
use mathlib.Core.Path.{◌≡◌, refl}
use mathlib.Core.Logic.{◌↔◌}
use mathlib.Core.Bool.{Bool, true, false}
use native.Mathlib.Omega.{arith}
use linux_cpp.Common.Tests.{ltb, leb, ◌==◌, if◌then◌else◌}

pub data ℤ : Type 0 where
  pos : ℕ → ℤ
  negsuc : ℕ → ℤ

abbrev pub pos_part : ℤ → ℕ
pos_part (pos n) = n
pos_part (negsuc n) = 0

abbrev pub neg_part : ℤ → ℕ
neg_part (pos n) = 0
neg_part (negsuc n) = suc n

abbrev pub eqb : ℤ → ℤ → Bool
eqb (pos a) (pos b) = a == b
eqb (negsuc a) (negsuc b) = a == b
eqb (pos a) (negsuc b) = false
eqb (negsuc a) (pos b) = false

-- a < b
abbrev pub ltz : ℤ → ℤ → Bool
ltz (pos a) (pos b) = ltb a b
ltz (negsuc a) (negsuc b) = ltb b a
ltz (pos a) (negsuc b) = false
ltz (negsuc a) (pos b) = true

pub eqb_iff : (a b : ℤ) → (eqb a b ≡ true) ↔ (a ≡ b)
eqb_iff (pos a) (pos b) = ground arith
eqb_iff (negsuc a) (negsuc b) = ground arith
eqb_iff (pos a) (negsuc b) = ground arith
eqb_iff (negsuc a) (pos b) = ground arith

pub eqb_self : (a : ℤ) → eqb a a ≡ true
eqb_self a = (eqb_iff a a).1 refl

pub eqb_sym : (a b : ℤ) → eqb a b ≡ eqb b a
eqb_sym (pos a) (pos b) = ground arith
eqb_sym (negsuc a) (negsuc b) = ground arith
eqb_sym (pos a) (negsuc b) = refl
eqb_sym (negsuc a) (pos b) = refl

-- a - b, as an integer.
abbrev pub sub_ℕ : ℕ → ℕ → ℤ
sub_ℕ a b = if leb b a then pos (a - b) else negsuc (b - a - 1)

infixl 65 ◌+ℤ◌ ◌-ℤ◌
infixl 70 ◌*ℤ◌ ◌/ℤ◌ ◌%ℤ◌
unfoldable pub ◌+ℤ◌ : ℤ → ℤ → ℤ
a +ℤ b = sub_ℕ (pos_part a + pos_part b) (neg_part a + neg_part b)

unfoldable pub ◌-ℤ◌ : ℤ → ℤ → ℤ
a -ℤ b = sub_ℕ (pos_part a + neg_part b) (neg_part a + pos_part b)

unfoldable pub ◌*ℤ◌ : ℤ → ℤ → ℤ
a *ℤ b =
    sub_ℕ (pos_part a * pos_part b + neg_part a * neg_part b)
      (pos_part a * neg_part b + neg_part a * pos_part b)

-- C++ divides towards zero; the remainder has the sign of the dividend.
unfoldable pub ◌/ℤ◌ : ℤ → ℤ → ℤ
pos a /ℤ pos b = pos (a / b)
pos a /ℤ negsuc b = sub_ℕ 0 (a / suc b)
negsuc a /ℤ pos b = sub_ℕ 0 (suc a / b)
negsuc a /ℤ negsuc b = pos (suc a / suc b)

unfoldable pub ◌%ℤ◌ : ℤ → ℤ → ℤ
pos a %ℤ pos b = pos (a % b)
pos a %ℤ negsuc b = pos (a % suc b)
negsuc a %ℤ pos b = sub_ℕ 0 (suc a % b)
negsuc a %ℤ negsuc b = sub_ℕ 0 (suc a % suc b)

-- The absolute value.
abbrev pub size : ℤ → ℕ
size (pos n) = n
size (negsuc n) = suc n

-- The values of a 32-bit int.
abbrev pub fits : ℤ → Bool
fits (pos n) = ltb n 0x8000_0000
fits (negsuc n) = ltb n 0x8000_0000
