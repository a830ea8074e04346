-- ===== src/SelectServer/Cleared.antt =====
-- The loop of `InitServer` of `SelectServer` that frees the slots.
use linux_cpp.Common.{
  ℕ, zero, suc, ◌+◌, ◌<◌, ◌≡◌, refl, List, [], ◌∷◌, ℤ, pos, length, get_or, set, count,
  get_or-set_self, ◌∙◌, length-set, get_or-set_ne, arith,
}
use linux_cpp.SelectServer.{gdefaultfd, clear_from}

pub clear_from_lem : (rounds i : ℕ) (a : List ℤ) → length (clear_from rounds i a) ≡ length a
unfolding clear_from
clear_from_lem zero i a = refl
clear_from_lem (suc rounds) i a = clear_from_lem rounds (suc i) _ ∙ length-set a i gdefaultfd

-- slots below `i` are free
abbrev pub Cleared : ℕ → List ℤ → Type 0
Cleared i a = (j : ℕ) → j < i → get_or a j gdefaultfd ≡ gdefaultfd

pub clear_from-Cleared :
    (rounds i : ℕ) (a : List ℤ)
    → rounds + i ≡ length a
    → Cleared i a
    → Cleared (rounds + i) (clear_from rounds i a)
unfolding clear_from
clear_from-Cleared zero i a e c = λ j h. c j (omega arith)
clear_from-Cleared (suc rounds) i a e c = λ j h.
    clear_from-Cleared rounds (suc i) (set a i gdefaultfd)
      (omega (arith, length-set a i gdefaultfd))
      (λ k q. ground (
        arith,
        c k,
        get_or-set_self a i gdefaultfd gdefaultfd,
        get_or-set_ne a i k gdefaultfd gdefaultfd,
      ))
      j (omega arith)

pub count-Cleared : (fd : ℕ) (a : List ℤ) → Cleared (length a) a → count (pos fd) a ≡ 0
count-Cleared fd [] c = refl
count-Cleared fd (x ∷ xs) c =
    rw (c 0 (omega arith)) (omega (arith, count-Cleared fd xs (λ j h. c (suc j) (omega arith))))
