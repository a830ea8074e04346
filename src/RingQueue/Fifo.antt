-- ===== src/RingQueue/Fifo.antt =====
-- The ring queue is a bounded first-in first-out queue, whatever the interleaving.
use linux_cpp.Common.{
  ℕ, zero, suc, ◌+◌, ◌<◌, ◌≤◌, ◌≡◌, ◌≢◌, refl, sym, ap, ◌∙◌, List, [], ◌++◌, length, get_or, arith,
  total, le-total, replicate, length-replicate,
}
use linux_cpp.RingQueue.{
  RingQueue, Pc, idle, push_write, pop_read, Move, push, System, Step, pick, Reach, start, later,
  init,
}
use linux_cpp.RingQueue.Window.{mod_ne}
use linux_cpp.RingQueue.Moves.{Move-Inv}
use linux_cpp.RingQueue.Invariant.{
  Inv, counts, pushing, posting, popping, returning, in_push, in_pop, held-le,
}

module _ {A : Type 0} where
  total-replicate : (w : Pc A → ℕ) (n : ℕ) → w idle ≡ 0 → total w (replicate n idle) ≡ 0
  total-replicate w zero h = refl
  total-replicate w (suc n) h = omega (arith, total-replicate w n h)

  idle-replicate : (n i : ℕ) → get_or (replicate n idle) i idle ≡ (let start : Pc A = idle in start)
  idle-replicate zero i = refl
  idle-replicate (suc n) zero = refl
  idle-replicate (suc n) (suc i) = idle-replicate n i

  init-Inv :
      (default : A) (limit n : ℕ) → 0 < limit → Inv [] (init A default limit) (replicate n idle)
  init-Inv default limit n h = record {
    positive = h;
    size = length-replicate limit default;
    fifo = refl;
    p_at = ground arith;
    c_at = ground arith;
    content = refl;
    spaces = omega (arith, total-replicate pushing n refl, total-replicate returning n refl);
    datas = omega (arith, total-replicate popping n refl, total-replicate posting n refl);
    one_producer = total-replicate in_push n refl;
    one_consumer = total-replicate in_pop n refl;
    stored = λ i x e. ground (arith, idle-replicate n i);
    loaded = λ i x e. ground (arith, idle-replicate n i);
  }

  Move-cap : {m m' : RingQueue A} {p p' : Pc A} → Move A m p m' p' → m'.cap ≡ m.cap
  Move-cap (push x) = refl
  Move-cap mv = refl

  -- Every reachable state satisfies the invariant, with the capacity unchanged.
  pub record Reached (limit : ℕ) (s : System A) : Type 0 where
    pub rest : List A
    pub inv : Inv rest s.mem s.threads
    pub cap_same : s.mem.cap ≡ limit

  Step-Reached : (limit : ℕ) {s t : System A} → Step A s t → Reached limit s → Reached limit t
  Step-Reached limit (pick i lt mv) r =
      let next = Move-Inv r.inv i lt mv (counts r.inv i lt _) in
      record { rest = next.0; inv = next.1; cap_same = Move-cap mv ∙ r.cap_same }

  pub Reach-Reached :
      {default : A} {limit n : ℕ} {s : System A}
      → 0 < limit
      → Reach A default limit n s
      → Reached limit s
  Reach-Reached {default} {limit} {n} h start = record {
    rest = [];
    inv = init-Inv default limit n h;
    cap_same = refl;
  }
  Reach-Reached {limit = limit} h (later r st) = Step-Reached limit st (Reach-Reached h r)

  -- In every state that any number of threads can reach in any interleaving, the values taken out
  -- are a prefix of the values put in, in the same order, and at most `limit` values are in between.
  pub Reach_fifo :
      {default : A} {limit n : ℕ} {s : System A}
      → 0 < limit
      → Reach A default limit n s
      → (rest : List A) × (s.mem.ins ≡ s.mem.outs ++ rest) × (length rest ≤ limit)
  Reach_fifo h r =
      let q = Reach-Reached h r in (q.rest, q.inv.fifo, omega (arith, q.inv.spaces, q.cap_same))

  -- In every reachable state, when one thread is about to store and another about to load, they
  -- use different slots of the vector.
  pub Reach_race_free :
      {default : A} {limit n : ℕ} {s : System A} {x : A}
      → 0 < limit
      → Reach A default limit n s
      → (i j : ℕ) → get_or s.threads i idle ≡ push_write x
      → get_or s.threads j idle ≡ pop_read
      → s.mem.p_step ≢ s.mem.c_step
  Reach_race_free {s = s} h r i j stores loads e =
      let v = (Reach-Reached h r).inv in
      let rest = (Reach-Reached h r).rest in
      let m = s.mem in
      let p = le-total pushing s.threads i idle refl in
      let c = le-total popping s.threads j idle refl in
      mod_ne (length m.outs) (length m.outs + length rest) m.cap
        (omega (arith, v.datas, c, ap popping loads))
        (omega (arith, v.spaces, p, ap pushing stores)) (sym v.c_at ∙ sym e ∙ v.p_at)

  -- In every reachable state at most one thread stands between Lock and UnLock in `Push`, and at
  -- most one in `Pop`.
  pub Reach_exclusive :
      {default : A} {limit n : ℕ} {s : System A}
      → 0 < limit
      → Reach A default limit n s
      → (total in_push s.threads ≤ 1) × (total in_pop s.threads ≤ 1)
  Reach_exclusive {s = s} h r =
      let v = (Reach-Reached h r).inv in
      (
        omega (arith, v.one_producer, held-le s.mem.p_mutex),
        omega (arith, v.one_consumer, held-le s.mem.c_mutex),
      )
