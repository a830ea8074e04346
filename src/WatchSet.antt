-- ===== src/WatchSet.antt =====
-- What the tables of IO/SelectServer and IO/Pollserver stand for: the descriptors that a
-- server watches, each as often as it is there, whatever the slots, their order and the free ones
-- between.
pub mod Replay
mod Tests
use mathlib.Core.Quot
use mathlib.Core.Quot.{Quot, Quot-set}
use native.Mathlib.Nat.{ℕ_set}
use linux_cpp.Common.{
  ℕ, zero, suc, ◌+◌, ◌-◌, ◌≡◌, ◌∙◌, ap, List, [], ◌∷◌, if◌then◌else◌, Bool, true, false, refl, ℤ,
  pos, eqb, eqb_iff, Bool-cases, inl, inr, hit, count, arith,
}
use linux_cpp.Os.{Event, accepted, closed, Trace, opens}

abbrev pub SameFds : List ℤ → List ℤ → Type 0
SameFds xs ys = (n : ℕ) → count (pos n) xs ≡ count (pos n) ys

abbrev pub WatchSet : Type 0
WatchSet = Quot SameFds

abbrev pub of_list : List ℤ → WatchSet
of_list = Quot.mk

-- How often a descriptor is there.
pub occurrences : ℕ → WatchSet → ℕ
occurrences n = Quot.lift ℕ_set (count (pos n)) (λ xs ys h. h n)

pub add : ℤ → WatchSet → WatchSet
add fd =
    Quot.lift Quot-set (λ xs. of_list (fd ∷ xs)) (λ xs ys h. Quot.sound (λ n. omega (arith, h n)))

abbrev pub drop_first : ℤ → List ℤ → List ℤ
drop_first fd [] = []
drop_first fd (x ∷ xs) = if eqb x fd then xs else (x ∷ drop_first fd xs)

pub if-count :
    (b : Bool) (x : ℤ) (xs ys : List ℤ)
    → count x (if b then xs else ys) ≡ (if b then count x xs else count x ys)
if-count true x xs ys = refl
if-count false x xs ys = refl

pub count-drop_first : (fd x : ℤ) (xs : List ℤ) → count x (drop_first fd xs) ≡ count x xs - hit fd x
count-drop_first fd x [] = omega arith
count-drop_first fd x (y ∷ xs) =
    let rest = count-drop_first fd x xs in
    let part = if-count (eqb y fd) x xs (y ∷ drop_first fd xs) in
    ground (arith, rest, part, eqb_iff y fd, eqb_iff y x, eqb_iff fd x)

pub remove : ℤ → WatchSet → WatchSet
remove fd =
    Quot.lift Quot-set (λ xs. of_list (drop_first fd xs))
      (λ xs ys h. Quot.sound (λ n.
        let left = count-drop_first fd (pos n) xs in
        let right = count-drop_first fd (pos n) ys in omega (arith, h n, left, right)))

-- What a call does to the set of the open connections.
pub on_event : Event → WatchSet → WatchSet
on_event (accepted l r) w = add r w
on_event (closed x) w = remove x w
on_event _ w = w

-- The connections that a history leaves open, from its calls alone.
pub replay : Trace → WatchSet
replay [] = of_list []
replay (e ∷ t) = on_event e (replay t)

pub occurrences-add :
    (n : ℕ) (fd : ℤ) (w : WatchSet) → occurrences n (add fd w) ≡ hit fd (pos n) + occurrences n w
unfolding occurrences add
occurrences-add n fd = Quot.ind (λ w. ℕ_set _ _) (λ xs. refl)

pub occurrences-remove :
    (n : ℕ) (fd : ℤ) (w : WatchSet) → occurrences n (remove fd w) ≡ occurrences n w - hit fd (pos n)
unfolding occurrences remove
occurrences-remove n fd = Quot.ind (λ w. ℕ_set _ _) (count-drop_first fd (pos n))

pub occurrences-replay : (n : ℕ) (t : Trace) → occurrences n (replay t) ≡ opens (pos n) t
unfolding replay on_event opens occurrences
occurrences-replay n [] = refl
occurrences-replay n (accepted l r ∷ t) =
    occurrences-add n r (replay t) ∙ ap (λ (k : ℕ). hit r (pos n) + k) (occurrences-replay n t)
occurrences-replay n (closed x ∷ t) =
    occurrences-remove n x (replay t) ∙ ap (λ (k : ℕ). k - hit x (pos n)) (occurrences-replay n t)
occurrences-replay n (_ ∷ t) = occurrences-replay n t

-- Sets in which each descriptor is equally often are equal.
pub ext : (v w : WatchSet) → ((n : ℕ) → occurrences n v ≡ occurrences n w) → v ≡ w
unfolding occurrences
ext = Quot.ind (λ v. hlevel Quot-set) (λ xs. Quot.ind (λ w. hlevel Quot-set) (λ ys h. Quot.sound h))

pub occurrences-of_list : (n : ℕ) (xs : List ℤ) → occurrences n (of_list xs) ≡ count (pos n) xs
unfolding occurrences
occurrences-of_list n xs = refl
