-- ===== src/Socket/CString.antt =====
-- Texts with no zero byte, which C strings keep whole.
use linux_cpp.Common.{
  ℕ, zero, suc, ◌<◌, ◌≡◌, refl, sym, subst, ◌∙◌, ap, [], ◌∷◌, ◌++◌, Bytes, length, take, arith, ltb,
  ◌&&◌, Bool, true,
}
use linux_cpp.Socket.{c_string}

-- No byte is zero.
unfoldable pub Solid : Bytes → Type 0
Solid [] = Unit
Solid (x ∷ s) = (0 < x) × Solid s

pub Solid-append : (s t : Bytes) → Solid s → Solid t → Solid (s ++ t)
unfolding Solid
Solid-append [] t a b = b
Solid-append (x ∷ s) t a b = (a.0, Solid-append s t a.1 b)

pub c_string-cons : (x : ℕ) (s : Bytes) → 0 < x → c_string (x ∷ s) ≡ x ∷ c_string s
unfolding c_string
c_string-cons x s h = ground arith

pub c_string-Solid : (s : Bytes) → Solid (c_string s)
unfolding Solid c_string
c_string-Solid [] = tt
c_string-Solid (zero ∷ s) = tt
c_string-Solid (suc x ∷ s) =
    subst Solid (sym (c_string-cons (suc x) s (omega arith))) (omega arith, c_string-Solid s)

pub c_string_fixed : (s : Bytes) → Solid s → c_string s ≡ s
unfolding Solid c_string
c_string_fixed [] h = refl
c_string_fixed (zero ∷ s) h = absurd (omega (arith, h.0))
c_string_fixed (suc x ∷ s) h =
    c_string-cons (suc x) s (omega arith) ∙ ap (λ l. suc x ∷ l) (c_string_fixed s h.1)

take-length : (s : Bytes) → take (length s) s ≡ s
take-length [] = refl
take-length (x ∷ s) = ap (λ l. x ∷ l) (take-length s)

-- A text that comes whole.
pub c_string-whole : (s : Bytes) → Solid s → c_string (take (length s) s) ≡ s
c_string-whole s h = ap c_string (take-length s) ∙ c_string_fixed s h

abbrev pub all_positive : Bytes → Bool
all_positive [] = true
all_positive (x ∷ s) = ltb 0 x && all_positive s

pub all_positive-Solid : (s : Bytes) → all_positive s ≡ true → Solid s
unfolding Solid
all_positive-Solid [] h = tt
all_positive-Solid (x ∷ s) h = (ground (arith, h), all_positive-Solid s (ground (arith, h)))
