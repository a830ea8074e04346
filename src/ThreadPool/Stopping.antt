-- ===== src/ThreadPool/Stopping.antt =====
-- A pool that has been stopped comes to its end.
use linux_cpp.Common.{
  ℕ, suc, ◌+◌, ◌*◌, ◌-◌, ◌<◌, ◌≤◌, ◌≡◌, ◌⊎◌, inl, inr, refl, List, [], ◌∷◌, false, length, get_or,
  set, total, total-set, le-total, arith, ◌∙◌, ap, if_split,
}
use linux_cpp.ThreadPool.{
  ThreadPool, Pc, ready, sleeping, woken, busy, quit, take_or_wait, handler_task, handler_woken,
  asleep, System, ThreadStep, work, resume, spurious, finish, worker, Reach, later,
}
use linux_cpp.ThreadPool.Counts.{gone}
use linux_cpp.ThreadPool.Service.{Reach-drained}
use linux_cpp.ThreadPool.Invariant.{Reach-Inv}

module _ {T : Type 0} where
  -- How many steps a thread has before it tests the queue again, and that one.
  abbrev pub weight : Pc T → ℕ
  weight ready = 1
  weight sleeping = 1
  weight woken = 1
  weight (busy t) = 2
  weight quit = 0

  abbrev pub measure : ThreadPool T → List (Pc T) → ℕ
  measure p ts = 2 * length p.task_queue + total weight ts

  -- A thread of weight 1 that tests the queue.
  take-lt :
      (p : ThreadPool T) (ts : List (Pc T)) (i : ℕ)
      → p.isrunning ≡ false
      → i < length ts
      → weight (get_or ts i quit) ≡ 1
      → (q : List T) → p.task_queue ≡ q
      → (measure (take_or_wait T q p).0 (set ts i (take_or_wait T q p).1)
          < 2 * length q + total weight ts)
        × ((take_or_wait T q p).0.isrunning ≡ false)
  unfolding take_or_wait
  take-lt p ts i r lt h [] e =
      if_split
        (λ (x : ThreadPool T × Pc T).
          (measure x.0 (set ts i x.1) < 2 * length {A = T} [] + total weight ts)
          × (x.0.isrunning ≡ false))
        p.isrunning (λ b. absurd (ground (arith, b, r)))
        (λ b. (omega (arith, total-set weight ts i quit quit lt, ap length e, h), r))
  take-lt p ts i r lt h (t ∷ q) e = (omega (arith, total-set weight ts i (busy t) quit lt, h), r)

  -- Stopped for good: nobody waits.
  pub record Stopped (s : System T) : Type 0 where
    pub halted : s.pool.isrunning ≡ false
    pub nobody : total (asleep T) s.threads ≡ 0

  ThreadStep-lt :
      {s t : System T}
      → Stopped s
      → ThreadStep T s t
      → (measure t.pool t.threads < measure s.pool s.threads) × (t.pool.isrunning ≡ false)
  unfolding handler_task handler_woken
  ThreadStep-lt {s} v (work i lt e) =
      take-lt s.pool s.threads i v.halted lt (ap weight e) s.pool.task_queue refl
  ThreadStep-lt {s} v (resume i lt e) =
      take-lt (record s.pool { sleep_thread_num = s.pool.sleep_thread_num - 1 }) s.threads i
        v.halted lt (ap weight e) s.pool.task_queue refl
  ThreadStep-lt {s} v (spurious i lt e) =
      absurd (omega (arith, le-total (asleep T) s.threads i quit refl, ap (asleep T) e, v.nobody))
  ThreadStep-lt {s} v (finish i t lt e) =
      (omega (arith, total-set weight s.threads i ready quit lt, ap weight e), v.halted)

  -- `k` steps of the threads of the pool, one after another.
  pub data Runs (s : System T) : ℕ → System T → Type 0 where
    stay : Runs s 0 s
    go : {k : ℕ} {t u : System T} → Runs s k t → ThreadStep T t u → Runs s (suc k) u

  Reach-Stopped :
      {n : ℕ} {s : System T} → 0 < n → Reach T n s → s.pool.isrunning ≡ false → Stopped s
  Reach-Stopped pos r e = record {
    halted = e;
    nobody = ground (arith, e, (Reach-Inv pos r).stopped_awake);
  }

  Runs-measure :
      {n : ℕ} {s : System T} {k : ℕ} {t : System T}
      → 0 < n
      → Reach T n s
      → s.pool.isrunning ≡ false
      → Runs s k t
      → (k + measure t.pool t.threads ≤ measure s.pool s.threads)
        × (t.pool.isrunning ≡ false)
        × Reach T n t
  Runs-measure pos r e stay = (omega arith, e, r)
  Runs-measure {s} pos r e (go {k} {t} rs st) =
      let h = Runs-measure pos r e rs in
      let lt = ThreadStep-lt (Reach-Stopped pos h.2 h.1) st in
      (omega (arith, h.0, lt.0), lt.1, later h.2 (worker st))

  weight-le : (ts : List (Pc T)) → total weight ts ≤ 2 * length ts
  weight-le [] = omega arith
  weight-le (ready ∷ ts) = omega (arith, weight-le ts)
  weight-le (sleeping ∷ ts) = omega (arith, weight-le ts)
  weight-le (woken ∷ ts) = omega (arith, weight-le ts)
  weight-le (busy t ∷ ts) = omega (arith, weight-le ts)
  weight-le (quit ∷ ts) = omega (arith, weight-le ts)

  -- When a pool of one thread or more has been stopped, its threads make at most two steps for
  -- each task queued and two for each thread: whatever the interleaving, no run of them goes on for
  -- ever.
  pub Runs-bounded :
      (n : ℕ) (s : System T) (k : ℕ) (t : System T)
      → 0 < n
      → Reach T n s
      → s.pool.isrunning ≡ false
      → Runs s k t
      → k ≤ 2 * length s.pool.task_queue + 2 * n
  Runs-bounded n s k t pos r e rs =
      omega (arith, (Runs-measure pos r e rs).0, weight-le s.threads, (Reach-Inv pos r).size)

  -- A thread that can make a step, or that waits.
  data Live (ts : List (Pc T)) : Type 0 where
    live :
        (i : ℕ)
        → i < length ts
        → (get_or ts i quit ≡ ready)
          ⊎ (get_or ts i quit ≡ woken)
          ⊎ (get_or ts i quit ≡ sleeping)
          ⊎ ((t : T) × (get_or ts i quit ≡ busy t))
        → Live ts

  find-Live : (ts : List (Pc T)) → (total gone ts ≡ length ts) ⊎ Live ts
  find-Live [] = inl refl
  find-Live (ready ∷ ts) = inr (live 0 (omega arith) (inl refl))
  find-Live (woken ∷ ts) = inr (live 0 (omega arith) (inr (inl refl)))
  find-Live (sleeping ∷ ts) = inr (live 0 (omega arith) (inr (inr (inl refl))))
  find-Live (busy t ∷ ts) = inr (live 0 (omega arith) (inr (inr (inr (t, refl)))))
  find-Live (quit ∷ ts) = elim (find-Live ts) [
    | inl e ↦ inl (omega (arith, e))
    | inr (live i lt e) ↦ inr (live (suc i) (omega arith) e)
  ]

  Live-step : (s : System T) → Live s.threads → (t : System T) × ThreadStep T s t
  Live-step s (live i lt (inl e)) = (_, work i lt e)
  Live-step s (live i lt (inr (inl e))) = (_, resume i lt e)
  Live-step s (live i lt (inr (inr (inl e)))) = (_, spurious i lt e)
  Live-step s (live i lt (inr (inr (inr (t, e))))) = (_, finish i t lt e)

  -- In a reachable state of a pool of one thread or more that has been stopped, some thread can
  -- make a step without being signalled, or all have left their loops, and then every task accepted
  -- has been taken.
  pub Reach-ends :
      (n : ℕ) (s : System T)
      → 0 < n
      → Reach T n s
      → s.pool.isrunning ≡ false
      → ((t : System T) × ThreadStep T s t × (measure t.pool t.threads < measure s.pool s.threads))
        ⊎ (total gone s.threads ≡ n) × (s.pool.taken ≡ s.pool.accepted)
  Reach-ends n s pos r e = elim (find-Live s.threads) [
    | inl g ↦ inr (
      g ∙ (Reach-Inv pos r).size,
      (Reach-drained n s pos r (omega (arith, g, (Reach-Inv pos r).size))).1,
    )
    | inr l ↦
        let (t, st) = Live-step s l in inl (t, st, (ThreadStep-lt (Reach-Stopped pos r e) st).0)
  ]
