-- ===== src/ThreadPool/Counts.antt =====
-- How many threads of the pool sleep, have been woken, are awake and are gone, and the moves of the
-- threads that leave the pool itself alone.
use linux_cpp.Common.{
  ℕ, zero, suc, ◌+◌, ◌<◌, ◌≤◌, ◌≡◌, ◌⊎◌, inl, inr, refl, ap, List, [], ◌∷◌, Bool, false, length,
  length-set, get_or, set, map, replicate, total, total-set, le-total, arith,
}
use linux_cpp.ThreadPool.{
  Pc, ready, sleeping, woken, busy, quit, wake, asleep, Signal, no_signal, unheard, heard,
}

module _ {T : Type 0} where
  abbrev pub waking : Pc T → ℕ
  waking woken = 1
  waking _ = 0

  -- runs, or will test the queue without being signalled
  abbrev pub awake : Pc T → ℕ
  awake ready = 1
  awake woken = 1
  awake (busy t) = 1
  awake _ = 0

  abbrev pub gone : Pc T → ℕ
  gone quit = 1
  gone _ = 0

  pub record Counts (ts us : List (Pc T)) (a b : Pc T) : Type 0 where
    pub asleeps : total (asleep T) us + asleep T a ≡ total (asleep T) ts + asleep T b
    pub wakings : total waking us + waking a ≡ total waking ts + waking b
    pub awakes : total awake us + awake a ≡ total awake ts + awake b
    pub gones : total gone us + gone a ≡ total gone ts + gone b
    pub sizes : length us ≡ length ts
    pub some : awake a ≤ total awake ts

  pub set-Counts :
      (ts : List (Pc T)) (i : ℕ) (a b : Pc T)
      → i < length ts
      → get_or ts i quit ≡ a
      → Counts ts (set ts i b) a b
  set-Counts ts i a b lt e = record {
    asleeps = rw e at (total-set (asleep T) ts i b quit lt);
    wakings = rw e at (total-set waking ts i b quit lt);
    awakes = rw e at (total-set awake ts i b quit lt);
    gones = rw e at (total-set gone ts i b quit lt);
    sizes = length-set ts i b;
    some = rw e at (le-total awake ts i quit refl);
  }

  -- Threads move, and the pool's fields may stay as they are.
  pub record Shift (ts us : List (Pc T)) : Type 0 where
    pub size : length us ≡ length ts
    pub sleepers : total (asleep T) us + total waking us ≡ total (asleep T) ts + total waking ts
    pub alive : total (asleep T) us + total awake us ≡ total (asleep T) ts + total awake ts
    pub gones : total gone us ≡ total gone ts
    pub wakes : total awake ts ≤ total awake us

  pub set-woken-Shift :
      (ts : List (Pc T)) (i : ℕ)
      → i < length ts
      → get_or ts i quit ≡ sleeping
      → Shift ts (set ts i woken) × (0 < total awake (set ts i woken))
  set-woken-Shift ts i lt e =
      let c = set-Counts ts i sleeping woken lt e in
      (
        record {
          size = c.sizes;
          sleepers = omega (arith, c);
          alive = omega (arith, c);
          gones = omega (arith, c);
          wakes = omega (arith, c);
        },
        omega (arith, c),
      )

  pub set-ready-Shift :
      (ts : List (Pc T)) (i : ℕ) (t : T)
      → i < length ts
      → get_or ts i quit ≡ busy t
      → Shift ts (set ts i ready)
  set-ready-Shift ts i t lt e =
      let c = set-Counts ts i (busy t) ready lt e in
      record {
        size = c.sizes;
        sleepers = omega (arith, c);
        alive = omega (arith, c);
        gones = omega (arith, c);
        wakes = omega (arith, c);
      }

  Shift-refl : (ts : List (Pc T)) → Shift ts ts
  Shift-refl ts = record {
    size = refl;
    sleepers = refl;
    alive = refl;
    gones = refl;
    wakes = omega arith;
  }

  pub Signal-Shift :
      {ts us : List (Pc T)} {b : Bool}
      → Signal T ts b us
      → Shift ts us × ((b ≡ false) ⊎ (total (asleep T) ts ≡ 0) ⊎ (0 < total awake us))
  Signal-Shift {ts} no_signal = (Shift-refl ts, inl refl)
  Signal-Shift {ts} (unheard e) = (Shift-refl ts, inr (inl e))
  Signal-Shift {ts} (heard i lt e) = let s = set-woken-Shift ts i lt e in (s.0, inr (inr s.1))

  pub wake-Shift :
      (ts : List (Pc T)) → Shift ts (map (wake T) ts) × (total (asleep T) (map (wake T) ts) ≡ 0)
  wake-Shift [] = (Shift-refl [], refl)
  wake-Shift (t ∷ ts) =
      let h = wake-Shift ts in
      (
        record {
          size = ground (arith, h.0.size);
          sleepers = ground (arith, h.0.sleepers, t);
          alive = ground (arith, h.0.alive, t);
          gones = ground (arith, h.0.gones, t);
          wakes = ground (arith, h.0.wakes, t);
        },
        ground (arith, h.1, t),
      )

  pub waking-le-awake : (ts : List (Pc T)) → total waking ts ≤ total awake ts
  waking-le-awake [] = omega arith
  waking-le-awake (t ∷ ts) = ground (arith, waking-le-awake ts, t)

  -- `Start`: no thread has tested the queue.
  pub record Fresh (n : ℕ) (ts : List (Pc T)) : Type 0 where
    pub size : length ts ≡ n
    pub asleeps : total (asleep T) ts ≡ 0
    pub wakings : total waking ts ≡ 0
    pub awakes : total awake ts ≡ n
    pub gones : total gone ts ≡ 0

  pub replicate-Fresh : (n : ℕ) → Fresh n (replicate n ready)
  replicate-Fresh zero = record {
    size = refl;
    asleeps = refl;
    wakings = refl;
    awakes = refl;
    gones = refl;
  }
  replicate-Fresh (suc n) =
      let h = replicate-Fresh n in
      record {
        size = ap suc h.size;
        asleeps = omega (arith, h.asleeps);
        wakings = omega (arith, h.wakings);
        awakes = omega (arith, h.awakes);
        gones = omega (arith, h.gones);
      }
