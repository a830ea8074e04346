-- ===== src/ThreadPool/Singleton/Once.antt =====
-- The threads that call `GetInstance`, counted by where they stand.
use linux_cpp.Common.{
  ℕ, zero, suc, ◌+◌, ◌≤◌, ◌<◌, ◌≡◌, ◌⊎◌, ◌≢◌, refl, ap, List, ◌∷◌, Bool, true, false, length,
  get_or, set, replicate, total, total-set, le-total, arith,
}
use linux_cpp.ThreadPool.Singleton.{
  Pool, absent, constructed, initialised, started, Memory, Caller, entering, testing, creating,
  initing, starting, unlocking, returning, returned, after_first, after_second, Move, first_test,
  lock, second_test, create, init, start_it, unlock, return_tp, Calls, CallStep, pick, CallReach,
  begin, next,
}

abbrev pub held : Bool → ℕ
held true = 1
held false = 0

abbrev pub is_there : Pool → ℕ
is_there absent = 0
is_there constructed = 1
is_there initialised = 1
is_there started = 1

-- has seen that there is no pool, under the lock
abbrev pub makes : Caller → ℕ
makes creating = 1
makes _ = 0

-- has the lock otherwise
abbrev pub keeps : Caller → ℕ
keeps testing = 1
keeps initing = 1
keeps starting = 1
keeps unlocking = 1
keeps _ = 0

-- has come past a test that found a pool, or has made it
abbrev pub knows : Caller → ℕ
knows initing = 1
knows starting = 1
knows unlocking = 1
knows returning = 1
knows (returned p) = 1
knows _ = 0

-- has returned a null pointer
abbrev pub empty_handed : Caller → ℕ
empty_handed (returned absent) = 1
empty_handed _ = 0

pub record Inv (m : Memory) (callers : List Caller) : Type 0 where
  pub one : total makes callers + total keeps callers ≡ held m.sig_mutex
  pub count : m.created ≡ is_there m.tp
  pub fresh : total makes callers + m.created ≤ 1
  pub handed : total empty_handed callers ≡ 0
  pub known : (total knows callers ≡ 0) ⊎ (m.created ≡ 1)

held-le : (b : Bool) → held b ≤ 1
held-le true = omega arith
held-le false = omega arith

record Counts (cs ds : List Caller) (p q : Caller) : Type 0 where
  making : total makes ds + makes p ≡ total makes cs + makes q
  keeping : total keeps ds + keeps p ≡ total keeps cs + keeps q
  knowing : total knows ds + knows p ≡ total knows cs + knows q
  handing : total empty_handed ds + empty_handed p ≡ total empty_handed cs + empty_handed q
  made_some : makes p ≤ total makes cs
  kept_some : keeps p ≤ total keeps cs
  known_some : knows p ≤ total knows cs

counts :
    (cs : List Caller) (i : ℕ) (q : Caller)
    → i < length cs
    → Counts cs (set cs i q) (get_or cs i entering) q
counts cs i q lt = record {
  making = total-set makes cs i q entering lt;
  keeping = total-set keeps cs i q entering lt;
  knowing = total-set knows cs i q entering lt;
  handing = total-set empty_handed cs i q entering lt;
  made_some = le-total makes cs i entering refl;
  kept_some = le-total keeps cs i entering refl;
  known_some = le-total knows cs i entering refl;
}

-- What the two tests tell of the pool.
record Tested (p : Pool) : Type 0 where
  first_knows : knows (after_first p) ≡ is_there p
  first_handed : empty_handed (after_first p) ≡ 0
  second_handed : empty_handed (after_second p) ≡ 0
  handed_none : empty_handed (returned p) + is_there p ≡ 1
  first_makes : makes (after_first p) ≡ 0
  first_keeps : keeps (after_first p) ≡ 0
  second_knows : knows (after_second p) ≡ is_there p
  second_makes : makes (after_second p) + is_there p ≡ 1
  second_holds : makes (after_second p) + keeps (after_second p) ≡ 1

tested : (p : Pool) → Tested p
tested absent = record {
  first_knows = refl;
  first_handed = refl;
  second_handed = refl;
  handed_none = refl;
  first_makes = refl;
  first_keeps = refl;
  second_knows = refl;
  second_makes = refl;
  second_holds = refl;
}
tested constructed = record {
  first_knows = refl;
  first_handed = refl;
  second_handed = refl;
  handed_none = refl;
  first_makes = refl;
  first_keeps = refl;
  second_knows = refl;
  second_makes = refl;
  second_holds = refl;
}
tested initialised = record {
  first_knows = refl;
  first_handed = refl;
  second_handed = refl;
  handed_none = refl;
  first_makes = refl;
  first_keeps = refl;
  second_knows = refl;
  second_makes = refl;
  second_holds = refl;
}
tested started = record {
  first_knows = refl;
  first_handed = refl;
  second_handed = refl;
  handed_none = refl;
  first_makes = refl;
  first_keeps = refl;
  second_knows = refl;
  second_makes = refl;
  second_holds = refl;
}

Move-Inv :
    {m m' : Memory} {p p' : Caller} (cs ds : List Caller)
    → Move m p m' p'
    → Counts cs ds p p'
    → Inv m cs
    → Inv m' ds
Move-Inv {m} cs ds first_test c v =
    ground (arith, v.one, v.count, v.fresh, v.handed, v.known, c, tested m.tp)
Move-Inv {m} cs ds (lock e) c v =
    ground (arith, v.one, v.count, v.fresh, v.handed, v.known, ap held e, c)
Move-Inv {m} cs ds second_test c v =
    ground (arith, v.one, v.count, v.fresh, v.handed, v.known, held-le m.sig_mutex, c, tested m.tp)
Move-Inv {m} cs ds create c v =
    ground (arith, v.one, v.count, v.fresh, v.handed, v.known, held-le m.sig_mutex, c)
Move-Inv {m} cs ds init c v = ground (arith, v.one, v.count, v.fresh, v.handed, v.known, c)
Move-Inv {m} cs ds start_it c v = ground (arith, v.one, v.count, v.fresh, v.handed, v.known, c)
Move-Inv {m} cs ds unlock c v =
    ground (arith, v.one, v.count, v.fresh, v.handed, v.known, held-le m.sig_mutex, c)
Move-Inv {m} cs ds return_tp c v = ground (arith, v.one, v.count, v.fresh, v.handed, v.known, c)

Step-Inv : {s t : Calls} → CallStep s t → Inv s.mem s.callers → Inv t.mem t.callers
Step-Inv {s} (pick i {m} {p} lt e) v =
    Move-Inv s.callers (set s.callers i p) e (counts s.callers i p lt) v

total-replicate : (f : Caller → ℕ) (n : ℕ) → f entering ≡ 0 → total f (replicate n entering) ≡ 0
total-replicate f zero e = refl
total-replicate f (suc n) e = omega (arith, e, total-replicate f n e)

Reach-Inv : {n : ℕ} {s : Calls} → CallReach n s → Inv s.mem s.callers
Reach-Inv {n} begin = ground (
  arith,
  total-replicate makes n refl,
  total-replicate keeps n refl,
  total-replicate knows n refl,
  total-replicate empty_handed n refl,
)
Reach-Inv (next r e) = Step-Inv e (Reach-Inv r)

Reach-created : {n : ℕ} {s : Calls} → CallReach n s → s.mem.created ≤ 1
Reach-created r = let v = Reach-Inv r in ground (arith, v.fresh)

-- A caller that has returned was not given a null pointer, and exactly one pool has been made.
pub Reach-once :
    {n : ℕ} {s : Calls} (i : ℕ) (p : Pool)
    → CallReach n s
    → get_or s.callers i entering ≡ returned p
    → (s.mem.created ≡ 1) × (p ≢ absent)
Reach-once {n} {s} i p r e =
    let v = Reach-Inv r in
    let k = le-total knows s.callers i entering refl in
    let h = le-total empty_handed s.callers i entering refl in
    ground (arith, v.fresh, v.known, v.handed, k, h, ap knows e, ap empty_handed e)

abbrev pub early : ℕ → Calls
early n = record {
  mem = record { tp = constructed; sig_mutex = true; created = 1 };
  callers = initing ∷ returned constructed ∷ replicate n entering;
}

-- With two callers or more, one can be given a pool that has not been started, by the first test
-- alone, while the other that makes the pool still has the lock: `_tp` is set before `Init`.
pub Reach-early : (n : ℕ) → CallReach (suc (suc n)) (early n)
Reach-early n =
    next
      (next
        (next
          (next
            (next (next begin (pick 0 (omega arith) first_test)) (pick 0 (omega arith) (lock refl)))
            (pick 0 (omega arith) second_test))
          (pick 0 (omega arith) create))
        (pick 1 (omega arith) first_test))
      (pick 1 (omega arith) return_tp)
