-- ===== src/PollServer/Table.antt =====
-- The search of `Accepter` for a free slot.
use linux_cpp.Common.{
  ℕ, zero, suc, ◌+◌, ◌≤◌, ◌≡◌, refl, List, [], ◌∷◌, ℤ, eqb, length, get_or, set, hit, ◌<◌, eqb_iff,
  Option, none, some, arith, Bool-cases, inl, inr,
}
use linux_cpp.PollServer.{PollFd, free_slot, gdefaultfd, place, place_after_first}

-- How many slots watch `fd`.
abbrev pub watches : ℤ → List PollFd → ℕ
watches fd [] = 0
watches fd (x ∷ xs) = hit x.fd fd + watches fd xs

pub watches-set :
    (fd : ℤ) (xs : List PollFd) (i : ℕ) (v : PollFd)
    → i < length xs
    → watches fd (set xs i v) + hit (get_or xs i free_slot).fd fd ≡ watches fd xs + hit v.fd fd
watches-set fd [] i v h = absurd (omega arith)
watches-set fd (x ∷ xs) zero v h = omega arith
watches-set fd (x ∷ xs) (suc i) v h = omega (arith, watches-set fd xs i v (omega arith))

-- What a search leaves: a free slot turned into `sockfd`, or a table with no free slot.
abbrev pub Placed : ℤ → ℤ → List PollFd → Option (List PollFd) → Type 0
Placed fd sockfd xs (some ys) =
    (length ys ≡ length xs) × (watches fd ys + hit gdefaultfd fd ≡ watches fd xs + hit sockfd fd)
Placed fd sockfd xs none = watches gdefaultfd xs ≡ 0

pub place-Placed : (fd sockfd : ℤ) (xs : List PollFd) → Placed fd sockfd xs (place sockfd xs)
unfolding place
place-Placed fd sockfd [] = refl
place-Placed fd sockfd (x ∷ xs) = elim (Bool-cases (eqb x.fd gdefaultfd)) [
  | inl free ↦ rw (free, (eqb_iff x.fd gdefaultfd).0 free) (omega arith, omega arith)
  | inr taken ↦ rw taken (ground (arith, place-Placed fd sockfd xs))
]

-- The same for the search from slot 1 on, which leaves slot 0 alone.
abbrev pub PlacedAfter : ℤ → ℤ → List PollFd → Option (List PollFd) → Type 0
PlacedAfter fd sockfd xs (some ys) =
    (length ys ≡ length xs)
    × (watches fd ys + hit gdefaultfd fd ≡ watches fd xs + hit sockfd fd)
    × ((get_or ys 0 free_slot).fd ≡ (get_or xs 0 free_slot).fd)
PlacedAfter fd sockfd xs none = watches gdefaultfd xs ≤ hit ((get_or xs 0 free_slot).fd) gdefaultfd

pub place_after_first-PlacedAfter :
    (fd sockfd : ℤ) (xs : List PollFd) → PlacedAfter fd sockfd xs (place_after_first sockfd xs)
unfolding place_after_first
place_after_first-PlacedAfter fd sockfd [] = omega arith
place_after_first-PlacedAfter fd sockfd (x ∷ xs) = ground (arith, place-Placed fd sockfd xs)
