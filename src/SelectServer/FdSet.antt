-- ===== src/SelectServer/FdSet.antt =====
-- The set of descriptors that `Loop` hands to select.
use linux_cpp.Common.{
  ℕ, ◌<◌, ◌≡◌, List, [], ◌∷◌, true, false, ℤ, pos, negsuc, eqb, ltz, count, eqb_iff, arith,
  Bool-cases, ◌⊎◌, inl, inr, Bool, ltb, if◌then◌else◌, ◌||◌,
}
use linux_cpp.SelectServer.{gdefaultfd, fd_set, collect, succ}

-- The set holds what it held and what the table holds.
collect-set :
    (fds : List ℤ) (rfds : ℤ → Bool) (m : ℤ) (x : ℕ)
    → (collect fds rfds m).0 (pos x) ≡ (rfds (pos x) || ltb 0 (count (pos x) fds))
unfolding collect fd_set
collect-set [] rfds m x = ground arith
collect-set (fd ∷ fds) rfds m x = ground (
  arith,
  collect-set fds (if eqb fd gdefaultfd then rfds else fd_set fd rfds)
      (if eqb fd gdefaultfd then m else if ltz m fd then fd else m) x,
  eqb_iff fd gdefaultfd,
  eqb_iff fd (pos x),
)

abbrev larger : ℤ → ℤ → ℤ
larger m fd = if ltz m fd then fd else m

larger-le :
    (m fd : ℤ) (x : ℕ) → (ltz m (pos x) ≡ false) ⊎ (fd ≡ pos x) → ltz (larger m fd) (pos x) ≡ false
larger-le (pos m) (pos fd) x h = ground arith
larger-le (pos m) (negsuc fd) x h = ground arith
larger-le (negsuc m) (pos fd) x h = ground arith
larger-le (negsuc m) (negsuc fd) x h = ground arith

-- No descriptor of the table lies above the maximum.
collect-max :
    (fds : List ℤ) (rfds : ℤ → Bool) (m : ℤ) (x : ℕ)
    → (0 < count (pos x) fds) ⊎ (ltz m (pos x) ≡ false)
    → ltz (collect fds rfds m).1 (pos x) ≡ false
unfolding collect
collect-max [] rfds m x h = ground arith
collect-max (fd ∷ fds) rfds m x h = ground (
  arith,
  collect-max fds (if eqb fd gdefaultfd then rfds else fd_set fd rfds)
      (if eqb fd gdefaultfd then m else if ltz m fd then fd else m) x,
  larger-le m fd x,
  eqb_iff fd gdefaultfd,
  eqb_iff fd (pos x),
)

-- The descriptors that select is asked about are the ones in the table, and each is below the
-- first argument `max_fd + 1`, as select wants it.
pub collect_lem :
    (fds : List ℤ) (x : ℕ)
    → let asked = collect fds (λ _. false) gdefaultfd in
      (asked.0 (pos x) ≡ ltb 0 (count (pos x) fds))
      × ((asked.0 (pos x) ≡ false) ⊎ (ltz (pos x) (succ asked.1) ≡ true))
unfolding succ
collect_lem fds x =
    let same = collect-set fds (λ _. false) gdefaultfd x in
    (
      same,
      elim (Bool-cases ((collect fds (λ _. false) gdefaultfd).0 (pos x))) [
        | inr e ↦ inl e
        | inl e ↦ inr (
            ltz_succ (collect fds (λ _. false) gdefaultfd).1 x
              (collect-max fds (λ _. false) gdefaultfd x (inl (ground (arith, same, e)))))
      ],
    )
  where
    ltz_succ : (m : ℤ) (x : ℕ) → ltz m (pos x) ≡ false → ltz (pos x) (succ m) ≡ true
    ltz_succ (pos m) x h = ground arith
    ltz_succ (negsuc m) x h = ground arith
