-- ===== src/SelectServer/Table.antt =====
-- The search of `Accepter` for a free slot.
use linux_cpp.Common.{
  ◌+◌, ◌≤◌, ◌≡◌, refl, List, [], ◌∷◌, ℤ, eqb, length, get_or, hit, count, eqb_iff, Option, none,
  some, arith, Bool-cases, inl, inr,
}
use linux_cpp.SelectServer.{gdefaultfd, place, place_after_first}

-- What a search leaves: a free slot turned into `sockfd`, or a table with no free slot.
abbrev pub Placed : ℤ → ℤ → List ℤ → Option (List ℤ) → Type 0
Placed fd sockfd xs (some ys) =
    (length ys ≡ length xs) × (count fd ys + hit gdefaultfd fd ≡ count fd xs + hit sockfd fd)
Placed fd sockfd xs none = count gdefaultfd xs ≡ 0

pub place-Placed : (fd sockfd : ℤ) (xs : List ℤ) → Placed fd sockfd xs (place sockfd xs)
unfolding place
place-Placed fd sockfd [] = refl
place-Placed fd sockfd (x ∷ xs) = elim (Bool-cases (eqb x gdefaultfd)) [
  | inl free ↦ rw (free, (eqb_iff x gdefaultfd).0 free) (omega arith, omega arith)
  | inr taken ↦ rw taken (ground (arith, place-Placed fd sockfd xs))
]

-- The same for the search from slot 1 on, which leaves slot 0 alone.
abbrev pub PlacedAfter : ℤ → ℤ → List ℤ → Option (List ℤ) → Type 0
PlacedAfter fd sockfd xs (some ys) =
    (length ys ≡ length xs)
    × (count fd ys + hit gdefaultfd fd ≡ count fd xs + hit sockfd fd)
    × (get_or ys 0 gdefaultfd ≡ get_or xs 0 gdefaultfd)
PlacedAfter fd sockfd xs none = count gdefaultfd xs ≤ hit (get_or xs 0 gdefaultfd) gdefaultfd

pub place_after_first-PlacedAfter :
    (fd sockfd : ℤ) (xs : List ℤ) → PlacedAfter fd sockfd xs (place_after_first sockfd xs)
unfolding place_after_first
place_after_first-PlacedAfter fd sockfd [] = omega arith
place_after_first-PlacedAfter fd sockfd (x ∷ xs) = ground (arith, place-Placed fd sockfd xs)
