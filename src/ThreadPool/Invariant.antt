-- ===== src/ThreadPool/Invariant.antt =====
-- What holds of the thread pool in every reachable state.
use mathlib.Core.List.{append_assoc}
use linux_cpp.Common.{
  ℕ, ◌+◌, ◌-◌, ◌<◌, ◌≡◌, ◌⊎◌, inl, inr, refl, sym, ap, ◌∙◌, subst, List, [], ◌∷◌, ◌++◌, Bool, true,
  false, length, length-set, set-set, get_or, get_or-set_self, set, replicate, map, total, arith,
  if_split,
}
use linux_cpp.ThreadPool.{
  ThreadPool, Pc, ready, sleeping, woken, busy, quit, take_or_wait, handler_task, handler_woken,
  equeue, stop, wake, asleep, start_pool, System, Signal, Step, worker, work, resume, spurious,
  finish, submit, stops, Reach, start, later,
}
use linux_cpp.ThreadPool.Counts.{
  waking, awake, gone, set-Counts, Shift, set-woken-Shift, set-ready-Shift, Signal-Shift,
  wake-Shift, waking-le-awake, replicate-Fresh,
}

module _ {T : Type 0} where
  pub record Inv (n : ℕ) (p : ThreadPool T) (ts : List (Pc T)) : Type 0 where
    pub size : length ts ≡ n
    pub fifo : p.accepted ≡ p.taken ++ p.task_queue
    pub sleepers : p.sleep_thread_num ≡ total (asleep T) ts + total waking ts
    pub everyone : total (asleep T) ts + total awake ts + total gone ts ≡ n
    pub stopped_awake : (p.isrunning ≡ true) ⊎ (total (asleep T) ts ≡ 0)
    pub drained : (total gone ts ≡ 0) ⊎ (p.isrunning ≡ false) × (p.task_queue ≡ [])
    pub served : (p.task_queue ≡ []) ⊎ (0 < total awake ts)

  -- A thread that has the mutex tests the queue.
  take-Inv :
      {n : ℕ} {p : ThreadPool T} {ts : List (Pc T)}
      → Inv n p ts
      → (i : ℕ) → i < length ts
      → get_or ts i quit ≡ ready
      → (q : List T) → p.task_queue ≡ q
      → Inv n (take_or_wait T q p).0 (set ts i (take_or_wait T q p).1)
  unfolding take_or_wait
  take-Inv {n} {p} {ts} v i lt h [] e =
      if_split (λ (r : ThreadPool T × Pc T). Inv n r.0 (set ts i r.1)) p.isrunning
        (λ r.
          let c = set-Counts ts i ready sleeping lt h in
          record {
            size = c.sizes ∙ v.size;
            fifo = v.fifo;
            sleepers = omega (arith, v.sleepers, c);
            everyone = omega (arith, v.everyone, c);
            stopped_awake = inl r;
            drained = ground (arith, v.drained, c.gones);
            served = inl e;
          })
        (λ r.
          let c = set-Counts ts i ready quit lt h in
          record {
            size = c.sizes ∙ v.size;
            fifo = v.fifo;
            sleepers = omega (arith, v.sleepers, c);
            everyone = omega (arith, v.everyone, c);
            stopped_awake = ground (arith, v.stopped_awake, c.asleeps);
            drained = inr (r, e);
            served = inl e;
          })
  take-Inv {n} {p} {ts} v i lt h (t ∷ q) e =
      let c = set-Counts ts i ready (busy t) lt h in
      record {
        size = c.sizes ∙ v.size;
        fifo = v.fifo ∙ ap (◌++◌ p.taken) e ∙ sym (append_assoc p.taken (t ∷ []) q);
        sleepers = omega (arith, v.sleepers, c);
        everyone = omega (arith, v.everyone, c);
        stopped_awake = ground (arith, v.stopped_awake, c.asleeps);
        drained = ground (arith, v.drained, c.gones, e);
        served = inr (omega (arith, c));
      }

  -- The woken thread gives back its place among the sleepers.
  unsleep-Inv :
      {n : ℕ} {p : ThreadPool T} {ts : List (Pc T)}
      → Inv n p ts
      → (i : ℕ) → i < length ts
      → get_or ts i quit ≡ woken
      → Inv n (record p { sleep_thread_num = p.sleep_thread_num - 1 }) (set ts i ready)
  unsleep-Inv {n} {p} {ts} v i lt h =
      let c = set-Counts ts i woken ready lt h in
      record {
        size = c.sizes ∙ v.size;
        fifo = v.fifo;
        sleepers = omega (arith, v.sleepers, c);
        everyone = omega (arith, v.everyone, c);
        stopped_awake = ground (arith, v.stopped_awake, c.asleeps);
        drained = ground (arith, v.drained, c.gones);
        served = inr (omega (arith, c, waking-le-awake ts));
      }

  handler_woken-Inv :
      {n : ℕ} {p : ThreadPool T} {ts : List (Pc T)}
      → Inv n p ts
      → (i : ℕ) → i < length ts
      → get_or ts i quit ≡ woken
      → Inv n (handler_woken T p).0 (set ts i (handler_woken T p).1)
  unfolding handler_woken handler_task
  handler_woken-Inv {n} {p} {ts} v i lt h =
      subst (Inv n (handler_woken T p).0) (set-set ts i ready (handler_woken T p).1) (
        take-Inv (unsleep-Inv v i lt h) i (omega (arith, length-set ts i ready))
          (get_or-set_self ts i ready quit lt) p.task_queue refl)

  -- Threads move and the pool stays.
  Shift-Inv :
      {n : ℕ} {p : ThreadPool T} {ts us : List (Pc T)} → Inv n p ts → Shift ts us → Inv n p us
  Shift-Inv v s = record {
    size = s.size ∙ v.size;
    fifo = v.fifo;
    sleepers = omega (arith, v.sleepers, s);
    everyone = omega (arith, v.everyone, s);
    stopped_awake = ground (arith, v.stopped_awake, s.alive, s.wakes);
    drained = ground (arith, v.drained, s.gones);
    served = ground (arith, v.served, s.wakes);
  }

  stop-Inv :
      {n : ℕ} {p : ThreadPool T} {ts : List (Pc T)}
      → Inv n p ts
      → Inv n (stop T p) (map (wake T) ts)
  unfolding stop
  stop-Inv {ts} v =
      let w = Shift-Inv v (wake-Shift ts).0 in
      record {
        size = w.size;
        fifo = w.fifo;
        sleepers = w.sleepers;
        everyone = w.everyone;
        stopped_awake = inr (wake-Shift ts).1;
        drained = ground (arith, w.drained);
        served = w.served;
      }

  -- A task is queued: the pool runs, a sleeping thread is signalled if there is one.
  equeue-Inv :
      {n : ℕ} {p : ThreadPool T} {ts us : List (Pc T)}
      → 0 < n
      → Inv n p ts
      → (t : T) → Signal T ts (equeue T t p).1 us
      → Inv n (equeue T t p).0 us
  unfolding equeue
  equeue-Inv {n} {p} {ts} {us} pos v t =
      if_split (λ (r : ThreadPool T × Bool). Signal T ts r.1 us → Inv n r.0 us) p.isrunning
        (λ r s.
          let w = Shift-Inv v (Signal-Shift s).0 in
          record {
            size = w.size;
            fifo = ap (λ l. l ++ t ∷ []) v.fifo ∙ append_assoc p.taken p.task_queue (t ∷ []);
            sleepers = w.sleepers;
            everyone = w.everyone;
            stopped_awake = inl r;
            drained = ground (arith, w.drained, r);
            served = inr (
                ground (
                  arith,
                  r,
                  (Signal-Shift s).1,
                  w.drained,
                  w.everyone,
                  w.sleepers,
                  v.sleepers,
                  waking-le-awake ts,
                  (Signal-Shift s).0.wakes,
                  (Signal-Shift s).0.sleepers,
                ));
          })
        (λ r s. Shift-Inv v (Signal-Shift s).0)

  start-Inv : (n : ℕ) → Inv n (start_pool T) (replicate n ready)
  start-Inv n =
      let c = replicate-Fresh n in
      record {
        size = c.size;
        fifo = refl;
        sleepers = omega (arith, c);
        everyone = omega (arith, c);
        stopped_awake = inl refl;
        drained = inl c.gones;
        served = inl refl;
      }

  Step-Inv :
      {n : ℕ} {s t : System T}
      → 0 < n
      → Step T s t
      → Inv n s.pool s.threads
      → Inv n t.pool t.threads
  unfolding handler_task
  Step-Inv {s} pos (worker (work i lt h)) v = take-Inv v i lt h s.pool.task_queue refl
  Step-Inv pos (worker (resume i lt h)) v = handler_woken-Inv v i lt h
  Step-Inv {s} pos (worker (spurious i lt h)) v = Shift-Inv v (set-woken-Shift s.threads i lt h).0
  Step-Inv {s} pos (worker (finish i t lt h)) v = Shift-Inv v (set-ready-Shift s.threads i t lt h)
  Step-Inv pos (submit t g) v = equeue-Inv pos v t g
  Step-Inv pos stops v = stop-Inv v

  pub Reach-Inv : {n : ℕ} {s : System T} → 0 < n → Reach T n s → Inv n s.pool s.threads
  Reach-Inv {n} pos start = start-Inv n
  Reach-Inv pos (later r st) = Step-Inv pos st (Reach-Inv pos r)
