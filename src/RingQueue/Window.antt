-- ===== src/RingQueue/Window.antt =====
-- The part of the vector that holds the queue: `n` slots from index `g` on, modulo `limit`.
use linux_cpp.Common.{
  ℕ, zero, suc, ◌+◌, ◌%◌, ◌<◌, ◌≤◌, ◌≡◌, ◌≢◌, refl, sym, ◌∙◌, ap, List, [], ◌∷◌, ◌++◌, length,
  get_elem?, set, Option, some, arith,
}
use native.Mathlib.Nat.{div-add-mod, mod-lt}

abbrev pub window {ℓ} : {A : Type ℓ} → List A → ℕ → ℕ → ℕ → List (Option A)
window r limit g zero = []
window r limit g (suc n) = get_elem? r (g % limit) ∷ window r limit (suc g) n

pub mod_ne : (g p limit : ℕ) → g < p → p < g + limit → g % limit ≢ p % limit
mod_ne g p limit h k e = grind (arith, div-add-mod, mod-lt)

pub get_elem?-set_ne {ℓ} :
    {A : Type ℓ} (xs : List A) (i j : ℕ) (v : A) → i ≢ j → get_elem? (set xs i v) j ≡ get_elem? xs j
get_elem?-set_ne [] i j v h = refl
get_elem?-set_ne (x ∷ xs) zero zero v h = absurd (h refl)
get_elem?-set_ne (x ∷ xs) zero (suc j) v h = refl
get_elem?-set_ne (x ∷ xs) (suc i) zero v h = refl
get_elem?-set_ne (x ∷ xs) (suc i) (suc j) v h = get_elem?-set_ne xs i j v (λ e. h (ap suc e))

pub get_elem?-set_self {ℓ} :
    {A : Type ℓ} (xs : List A) (i : ℕ) (v : A) → i < length xs → get_elem? (set xs i v) i ≡ some v
get_elem?-set_self [] i v h = absurd (omega arith)
get_elem?-set_self (x ∷ xs) zero v h = refl
get_elem?-set_self (x ∷ xs) (suc i) v h = get_elem?-set_self xs i v (omega arith)

-- A store to the slot at `p` leaves the queue alone while `p` is past its end and not a full
-- round on.
pub window-set {ℓ} :
    {A : Type ℓ} (r : List A) (limit g n p : ℕ) (x : A)
    → g + n ≤ p
    → p < g + limit
    → window (set r (p % limit) x) limit g n ≡ window r limit g n
window-set r limit g zero p x h k = refl
window-set r limit g (suc n) p x h k = ground (
  arith,
  get_elem?-set_ne r (p % limit) (g % limit) x (λ e. mod_ne g p limit (omega arith) k (sym e)),
  window-set r limit (suc g) n p x (omega arith) (omega arith),
)

pub window-suc :
    {A : Type 0} (r : List A) (limit g n : ℕ)
    → window r limit g (suc n) ≡ window r limit g n ++ get_elem? r ((g + n) % limit) ∷ []
window-suc r limit g zero = ap (λ k. get_elem? r (k % limit) ∷ []) (omega arith)
window-suc r limit g (suc n) =
    ap (◌∷◌ (get_elem? r (g % limit))) (window-suc r limit (suc g) n)
    ∙ ap (λ k. get_elem? r (g % limit) ∷ (window r limit (suc g) n ++ get_elem? r (k % limit) ∷ []))
        (omega arith)
