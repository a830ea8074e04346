-- ===== src/PollServer/Cleared.antt =====
-- The loop of `InitServer` of `PollServer` that frees the slots.
use linux_cpp.Common.{
  ℕ, zero, suc, ◌+◌, ◌<◌, ◌≡◌, refl, List, [], ◌∷◌, pos, length, get_or, set, get_or-set_self, ◌∙◌,
  length-set, get_or-set_ne, arith,
}
use linux_cpp.PollServer.{PollFd, free_slot, gdefaultfd, clear_from}
use linux_cpp.PollServer.Table.{watches}

pub clear_from_lem : (rounds i : ℕ) (a : List PollFd) → length (clear_from rounds i a) ≡ length a
unfolding clear_from
clear_from_lem zero i a = refl
clear_from_lem (suc rounds) i a = clear_from_lem rounds (suc i) _ ∙ length-set a i free_slot

-- slots below `i` are free
abbrev pub Cleared : ℕ → List PollFd → Type 0
Cleared i a = (j : ℕ) → j < i → (get_or a j free_slot).fd ≡ gdefaultfd

pub clear_from-Cleared :
    (rounds i : ℕ) (a : List PollFd)
    → rounds + i ≡ length a
    → Cleared i a
    → Cleared (rounds + i) (clear_from rounds i a)
unfolding clear_from
clear_from-Cleared zero i a e c = λ j h. c j (omega arith)
clear_from-Cleared (suc rounds) i a e c = λ j h.
    clear_from-Cleared rounds (suc i) (set a i free_slot) (omega (arith, length-set a i free_slot))
      (λ k q. ground (
        arith,
        c k,
        get_or-set_self a i free_slot free_slot,
        get_or-set_ne a i k free_slot free_slot,
      ))
      j (omega arith)

pub watches-Cleared : (fd : ℕ) (a : List PollFd) → Cleared (length a) a → watches (pos fd) a ≡ 0
watches-Cleared fd [] c = refl
watches-Cleared fd (x ∷ xs) c =
    rw (c 0 (omega arith)) (omega (arith, watches-Cleared fd xs (λ j h. c (suc j) (omega arith))))
