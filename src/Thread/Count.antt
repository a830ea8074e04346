-- ===== src/Thread/Count.antt =====
-- How the threads of Thread/Main.cc and their tickets are counted.
use linux_cpp.Common.{
  ℕ, suc, ◌+◌, ◌<◌, ◌≤◌, ◌≡◌, ap, sym, subst, List, [], ◌∷◌, Bool, true, false, ℤ, pos, ltz, sub_ℕ,
  ◌-ℤ◌, length, get_or, set, get_or-set_self, get_or-set_ne, total, arith, ◌≢◌, ◌⊎◌, inl, inr,
}
use linux_cpp.Thread.{
  Place, unborn, created, testing, passed, shown, ended, loaded, Worker, State, nobody,
}

-- A thread that has printed a number and not stored the next one yet.
abbrev pub busy_at : Place → ℕ
busy_at unborn = 0
busy_at created = 0
busy_at testing = 0
busy_at passed = 0
busy_at shown = 1
busy_at ended = 0
busy_at (loaded v) = 1

abbrev pub busy : Worker → ℕ
busy w = busy_at w.place

-- The flag of a thread that is in its function is set, that of one that has ended is not.
abbrev pub FlaggedAt : Bool → Place → Type 0
FlaggedAt running unborn = Unit
FlaggedAt running created = Unit
FlaggedAt running testing = running ≡ true
FlaggedAt running passed = running ≡ true
FlaggedAt running shown = running ≡ true
FlaggedAt running ended = running ≡ false
FlaggedAt running (loaded v) = running ≡ true

abbrev pub over : Place → Bool
over unborn = false
over created = false
over testing = false
over passed = false
over shown = false
over ended = true
over (loaded v) = false

pub not_over : {p : Place} → p ≡ ended → over p ≢ false
not_over e f = ground (arith, f, ap over e)

pub sub_ℕ-positive :
    (a b : ℕ) → (ltz (pos 0) (sub_ℕ a b) ≡ true → b < a) × (ltz (pos 0) (sub_ℕ a b) ≡ false → a ≤ b)
sub_ℕ-positive a b = ground arith

pub sub_ℕ-pred : (a b : ℕ) → sub_ℕ a b -ℤ pos 1 ≡ sub_ℕ a (suc b)
unfolding ◌-ℤ◌
sub_ℕ-pred a b = ground arith

-- A number that `tickets` has come to when it was stored at most `sold` times.
abbrev pub Reached : ℕ → ℤ → Type 0
Reached sold v = (k : ℕ) × (k ≤ sold) × (v ≡ sub_ℕ 10000 k)

pub Reached-le : {sold sold' : ℕ} (v : ℤ) → sold ≤ sold' → Reached sold v → Reached sold' v
Reached-le v le (k, few, e) = (k, omega (arith, le, few), e)

-- What a thread that is about to store has loaded.
abbrev pub LoadedAt : ℕ → Place → Type 0
LoadedAt sold unborn = Unit
LoadedAt sold created = Unit
LoadedAt sold testing = Unit
LoadedAt sold passed = Unit
LoadedAt sold shown = Unit
LoadedAt sold ended = Unit
LoadedAt sold (loaded v) = Reached sold v

pub LoadedAt-le : {sold sold' : ℕ} (p : Place) → sold ≤ sold' → LoadedAt sold p → LoadedAt sold' p
LoadedAt-le unborn le h = tt
LoadedAt-le created le h = tt
LoadedAt-le testing le h = tt
LoadedAt-le passed le h = tt
LoadedAt-le shown le h = tt
LoadedAt-le ended le h = tt
LoadedAt-le (loaded v) le h = Reached-le v le h

-- The numbers printed.
pub data Printed (sold : ℕ) : List ℤ → Type 0 where
  nothing : Printed sold []
  more : {v : ℤ} {ns : List ℤ} → Reached sold v → Printed sold ns → Printed sold (v ∷ ns)

pub Printed-le : {sold sold' : ℕ} {ns : List ℤ} → sold ≤ sold' → Printed sold ns → Printed sold' ns
Printed-le le nothing = nothing
Printed-le le (more {v = v} h p) = more (Reached-le v le h) (Printed-le le p)

-- When `n` threads have stored `tickets` `sold` times.
pub record Sold (n sold : ℕ) (s : State) : Type 0 where
  pub threads : length s.workers ≡ n
  pub left_over : Reached sold s.tickets
  pub balance : sold + total busy s.workers ≤ length s.printed
  pub numbers : Printed sold s.printed
  pub loads : (i : ℕ) → LoadedAt sold (get_or s.workers i nobody).place
  pub flagged : (i : ℕ) → let w = get_or s.workers i nobody in FlaggedAt w.thread.isrunning w.place
  pub sold_out : (i : ℕ) → i < n → (get_or s.workers i nobody).place ≡ ended → 10000 ≤ sold
  pub joined : (i : ℕ) → n + i < s.calls → (get_or s.workers i nobody).place ≡ ended

pub same_or_not : (a b : ℕ) → (a ≡ b) ⊎ (a ≢ b)
same_or_not a b = omega arith

pub at-set :
    (P : Worker → Type 0) (xs : List Worker) (i j : ℕ) (v : Worker)
    → i < length xs
    → (i ≡ j → P v)
    → P (get_or xs j nobody)
    → P (get_or (set xs i v) j nobody)
at-set P xs i j v lt h k = elim (same_or_not i j) [
  | inl e ↦
      subst (λ m. P (get_or (set xs i v) m nobody)) e
        (subst P (sym (get_or-set_self xs i v nobody lt)) (h e))
  | inr ne ↦ subst P (sym (get_or-set_ne xs i j v nobody ne)) k
]
