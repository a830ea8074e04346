-- ===== src/TeachPool/Sleepers.antt =====
-- The threads of the earlier pool, counted by where they stand.
use mathlib.Core.List.{append_assoc}
use linux_cpp.Common.{
  ℕ, zero, suc, ◌+◌, ◌≤◌, ◌<◌, ◌≡◌, ◌⊎◌, inl, inr, refl, sym, ◌∙◌, ap, List, [], ◌∷◌, ◌++◌, length,
  length-append, get_or, set, replicate, total, total-set, arith,
}
use linux_cpp.TeachPool.{
  Worker, ready, waiting, woken, busy, Pool, runs, asleep, handler_task, Step, handles, finishes,
  push_wakes, push_alone, wakes_up, Reach, start, later,
}

no_sleeper : (T : Type 0) (n : ℕ) → total (asleep T) (replicate n ready) ≡ 0
no_sleeper T zero = refl
no_sleeper T (suc n) = omega (arith, no_sleeper T n)

module _ {T : Type 0} where
  pub record Inv (p : Pool T) : Type 0 where
    pub covered : (total (asleep T) p.threads ≡ 0) ⊎ (length p.tasks ≤ total (runs T) p.threads)
    pub fifo : p.pushed ≡ p.taken ++ p.tasks

  record Counts (xs ys : List (Worker T)) (v w : Worker T) : Type 0 where
    running : total (runs T) ys + runs T v ≡ total (runs T) xs + runs T w
    sleeping : total (asleep T) ys + asleep T v ≡ total (asleep T) xs + asleep T w

  counts :
      (xs : List (Worker T)) (i : ℕ) (w d : Worker T)
      → i < length xs
      → Counts xs (set xs i w) (get_or xs i d) w
  counts xs i w d h = record {
    running = total-set (runs T) xs i w d h;
    sleeping = total-set (asleep T) xs i w d h;
  }

  one : (w : Worker T) → runs T w ≡ 1 → asleep T w ≡ 0
  one ready h = refl
  one waiting h = ground (arith, h)
  one woken h = refl
  one (busy t) h = refl

  handler_task-Inv :
      (p : Pool T) (i : ℕ)
      → i < length p.threads
      → runs T (get_or p.threads i waiting) ≡ 1
      → (tasks : List T) → p.tasks ≡ tasks
      → Inv p
      → Inv (handler_task T i p)
  unfolding handler_task
  handler_task-Inv p i h r [] e v =
      rw e (record { covered = inr (omega arith); fifo = v.fifo ∙ ap (λ l. p.taken ++ l) e })
  handler_task-Inv p i h r (t ∷ ts) e v = rw e (record {
    covered = ground (
      arith,
      v.covered,
      ap length e,
      r,
      one (get_or p.threads i waiting) r,
      counts p.threads i (busy t) waiting h,
    );
    fifo = v.fifo ∙ ap (λ l. p.taken ++ l) e ∙ sym (append_assoc p.taken (t ∷ []) ts);
  })

  push-fifo : (t : T) (p : Pool T) → Inv p → p.pushed ++ t ∷ [] ≡ p.taken ++ (p.tasks ++ t ∷ [])
  push-fifo t p v = ap (λ l. l ++ t ∷ []) v.fifo ∙ append_assoc p.taken p.tasks (t ∷ [])

  -- A thread that sleeps is woken.
  wakes :
      (p : Pool T) (i : ℕ)
      → i < length p.threads
      → get_or p.threads i ready ≡ waiting
      → (suc (total (asleep T) (set p.threads i woken)) ≡ total (asleep T) p.threads)
        × (total (runs T) (set p.threads i woken) ≡ suc (total (runs T) p.threads))
  wakes p i h e =
      let c = counts p.threads i woken ready h in
      (omega (arith, c.sleeping, ap (asleep T) e), omega (arith, c.running, ap (runs T) e))

  Step-Inv : {p q : Pool T} → Step T p q → Inv p → Inv q
  Step-Inv {p} (handles i h r) v = handler_task-Inv p i h r p.tasks refl v
  Step-Inv {p} (finishes i {t} h e) v = record {
    covered =
        ground
          (arith, v.covered, counts p.threads i ready waiting h, ap (runs T) e, ap (asleep T) e);
    fifo = v.fifo;
  }
  Step-Inv {p} (push_wakes t i h e) v = record {
    covered = ground (arith, v.covered, wakes p i h e, length-append p.tasks (t ∷ []));
    fifo = push-fifo t p v;
  }
  Step-Inv {p} (push_alone t none_asleep) v = record {
    covered = inl none_asleep;
    fifo = push-fifo t p v;
  }
  Step-Inv {p} (wakes_up i h e) v = record {
    covered = ground (arith, v.covered, wakes p i h e);
    fifo = v.fifo;
  }

  -- In every reachable state of the pool, however many threads it has and whatever the interleaving
  -- and the spurious wake-ups: while some thread sleeps, there are at most as many tasks in the queue
  -- as threads that are about to take the mutex; and the tasks pushed are, in order, those taken and
  -- those in the queue.
  pub Reach-Inv : {num : ℕ} {p : Pool T} → Reach T num p → Inv p
  Reach-Inv {num} start = record { covered = inl (no_sleeper T num); fifo = refl }
  Reach-Inv (later r e) = Step-Inv e (Reach-Inv r)
