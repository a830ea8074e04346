-- ===== src/BlockQueue/Invariant.antt =====
-- What holds of the queue, with and without spurious wake-ups.
use mathlib.Core.List.{append_assoc}
use linux_cpp.Common.{
  ℕ, ◌+◌, ◌*◌, ◌/◌, ◌≤◌, ◌<◌, ◌≡◌, ◌⊎◌, inl, inr, refl, sym, ap, ◌∙◌, List, [], ◌∷◌, ◌++◌, false,
  if_both, if_split, ◌==◌, ltb, length, length-append, arith,
}
use linux_cpp.BlockQueue.{
  BlockQueue, Consumer, Producer, signal_c, signal_p, take_from, pop, pop_woken, push, push_woken,
  Step, pops, pops_on, pushes, pushes_on, pop_returns, push_returns, Reach, AnyReach, start, later,
  returned,
}

module _ {T : Type 0} where
  take-fifo :
      (xs : List T) (b : BlockQueue T)
      → b.ins ≡ b.outs ++ xs
      → b.q ≡ xs
      → (take_from T xs b).ins ≡ (take_from T xs b).outs ++ (take_from T xs b).q
  unfolding take_from
  take-fifo [] b h e = h ∙ ap (◌++◌ b.outs) (sym e)
  take-fifo (x ∷ xs) b h e = h ∙ sym (append_assoc b.outs (x ∷ []) xs)

  push-fifo :
      (x : T) (b : BlockQueue T)
      → b.ins ≡ b.outs ++ b.q
      → (push_woken T x b).ins ≡ (push_woken T x b).outs ++ (push_woken T x b).q
  unfolding push_woken
  push-fifo x b h = ap (λ l. l ++ x ∷ []) h ∙ append_assoc b.outs b.q (x ∷ [])

  Fifo : BlockQueue T → Type 0
  Fifo b = b.ins ≡ b.outs ++ b.q

  Step-Fifo : {b b' : BlockQueue T} → Step T b b' → Fifo b → Fifo b'
  unfolding Fifo pop pop_woken push
  Step-Fifo {b} (pops ok e) h =
      if_both (λ (x : BlockQueue T). x.ins ≡ x.outs ++ x.q) (length b.q == 0) h
        (take-fifo b.q b h refl)
  Step-Fifo {b} (pops_on ok e) h = take-fifo b.q b h refl
  Step-Fifo {b} (pushes x ok e) h =
      if_both (λ (x : BlockQueue T). x.ins ≡ x.outs ++ x.q) (length b.q == b.maxcap) h
        (push-fifo x b h)
  Step-Fifo {b} (pushes_on x ok e) h = push-fifo x b h

  -- Whatever the interleaving of the consumer and the producer, spurious wake-ups included: the
  -- values put in are those taken out followed by those in the queue.
  pub AnyReach-fifo : (maxcap : ℕ) (b : BlockQueue T) → AnyReach T maxcap b → b.ins ≡ b.outs ++ b.q
  unfolding Fifo
  AnyReach-fifo maxcap b start = refl
  AnyReach-fifo maxcap b (later r step) = Step-Fifo step (AnyReach-fifo maxcap _ r)
  AnyReach-fifo maxcap b (returned r (pop_returns e)) = AnyReach-fifo maxcap _ r
  AnyReach-fifo maxcap b (returned r (push_returns x e)) = AnyReach-fifo maxcap _ r

  abbrev pub consumer_waits : Consumer T → ℕ
  consumer_waits Consumer.waiting = 1
  consumer_waits Consumer.outside = 0
  consumer_waits Consumer.woken = 0

  abbrev pub producer_waits : Producer T → ℕ
  producer_waits (Producer.waiting x) = 1
  producer_waits Producer.outside = 0
  producer_waits (Producer.woken x) = 0

  abbrev pub consumer_wakes : Consumer T → ℕ
  consumer_wakes Consumer.waiting = 0
  consumer_wakes Consumer.outside = 0
  consumer_wakes Consumer.woken = 1

  abbrev pub producer_wakes : Producer T → ℕ
  producer_wakes (Producer.waiting x) = 0
  producer_wakes Producer.outside = 0
  producer_wakes (Producer.woken x) = 1

  signal_p-waits :
      (p : Producer T) → (producer_waits (signal_p T p) ≡ 0) × (producer_wakes (signal_p T p) ≤ 1)
  signal_p-waits (Producer.waiting x) = (refl, omega arith)
  signal_p-waits Producer.outside = (refl, omega arith)
  signal_p-waits (Producer.woken x) = (refl, omega arith)

  wakes-le : (p : Producer T) → producer_wakes p ≤ 1
  wakes-le (Producer.waiting x) = omega arith
  wakes-le Producer.outside = omega arith
  wakes-le (Producer.woken x) = omega arith

  signal_c-waits :
      (c : Consumer T) → (consumer_waits (signal_c T c) ≡ 0) × (consumer_wakes (signal_c T c) ≤ 1)
  signal_c-waits Consumer.waiting = (refl, omega arith)
  signal_c-waits Consumer.outside = (refl, omega arith)
  signal_c-waits Consumer.woken = (refl, omega arith)

  -- With no spurious wake-up.
  pub record Inv (maxcap : ℕ) (b : BlockQueue T) : Type 0 where
    pub cap : b.maxcap ≡ maxcap
    pub high : b.high_water ≡ maxcap * 2 / 3
    pub no_fault : b.fault ≡ false
    pub sleeps : (consumer_waits b.consumer ≡ 0) ⊎ (length b.q ≡ 0)
    pub wakes : consumer_wakes b.consumer ≤ length b.q
    pub blocked : (producer_waits b.producer ≡ 0) ⊎ (length b.q ≡ maxcap) ⊎ (maxcap < 4)
    pub room : length b.q + producer_wakes b.producer ≤ maxcap

  take-Inv :
      (maxcap : ℕ) (xs : List T) (b : BlockQueue T)
      → Inv maxcap b
      → b.q ≡ xs
      → 0 < length xs
      → Inv maxcap (take_from T xs b)
  unfolding take_from
  take-Inv maxcap [] b v e h = absurd (omega arith)
  take-Inv maxcap (x ∷ xs) b v e h =
      let l = ap length e in
      record {
        cap = v.cap;
        high = v.high;
        no_fault = v.no_fault;
        sleeps = inl refl;
        wakes = omega arith;
        blocked = ground (arith, v.blocked, v.high, l, signal_p-waits b.producer, v.room);
        room =
            if_both (λ (p : Producer T). length xs + producer_wakes p ≤ maxcap)
              (ltb b.high_water (length xs)) (omega (arith, signal_p-waits b.producer, l, v.room))
              (omega (arith, l, v.room));
      }

  push-Inv :
      (maxcap : ℕ) (x : T) (b : BlockQueue T)
      → Inv maxcap b
      → length b.q < maxcap
      → Inv maxcap (push_woken T x b)
  unfolding push_woken
  push-Inv maxcap x b v h =
      let l = length-append b.q (x ∷ []) in
      record {
        cap = v.cap;
        high = v.high;
        no_fault = v.no_fault;
        sleeps = inl (signal_c-waits b.consumer).0;
        wakes = omega (arith, signal_c-waits b.consumer, l);
        blocked = inl refl;
        room = omega (arith, l);
      }

  Step-Inv : {maxcap : ℕ} {b b' : BlockQueue T} → Step T b b' → Inv maxcap b → Inv maxcap b'
  unfolding pop pop_woken push
  Step-Inv {maxcap} {b} (pops ok e) v =
      if_split (Inv maxcap) (length b.q == 0)
        (λ z. record {
          cap = v.cap;
          high = v.high;
          no_fault = v.no_fault;
          sleeps = inr (ground (arith, z));
          wakes = omega arith;
          blocked = v.blocked;
          room = v.room;
        })
        (λ z. take-Inv maxcap b.q b v refl (ground (arith, z)))
  Step-Inv {maxcap} {b} (pops_on ok e) v =
      take-Inv maxcap b.q b v refl (omega (arith, v.wakes, ap consumer_wakes e))
  Step-Inv {maxcap} {b} (pushes x ok e) v =
      if_split (Inv maxcap) (length b.q == b.maxcap)
        (λ z. record {
          cap = v.cap;
          high = v.high;
          no_fault = v.no_fault;
          sleeps = v.sleeps;
          wakes = v.wakes;
          blocked = inr (inl (ground (arith, z, v.cap)));
          room = omega (arith, v.room);
        })
        (λ z. push-Inv maxcap x b v (ground (arith, z, v.cap, v.room)))
  Step-Inv {maxcap} {b} (pushes_on x ok e) v =
      push-Inv maxcap x b v (omega (arith, v.room, ap producer_wakes e))

  pub Reach-Inv : {maxcap : ℕ} {b : BlockQueue T} → Reach T maxcap b → Inv maxcap b
  Reach-Inv start = record {
    cap = refl;
    high = refl;
    no_fault = refl;
    sleeps = inl refl;
    wakes = omega arith;
    blocked = inl refl;
    room = omega arith;
  }
  Reach-Inv (later r step) = Step-Inv step (Reach-Inv r)

  -- With one consumer and one producer, as long as no wait returns without a signal, whatever the
  -- interleaving and the capacity: no value is taken from an empty queue, and the queue holds no more than the capacity.
  pub Reach_bounds :
      (maxcap : ℕ) (b : BlockQueue T) → Reach T maxcap b → (b.fault ≡ false) × (length b.q ≤ maxcap)
  Reach_bounds maxcap b r = let v = Reach-Inv r in (v.no_fault, omega (arith, v.room))

  -- With one consumer and one producer, as long as no wait returns without a signal, with a capacity
  -- of 4 or more, the two never wait both.
  pub Reach_awake :
      (maxcap : ℕ) (b : BlockQueue T)
      → 3 < maxcap
      → Reach T maxcap b
      → consumer_waits b.consumer + producer_waits b.producer ≤ 1
  Reach_awake maxcap b h r =
      let v = Reach-Inv r in ground (arith, v.sleeps, v.blocked, one b.consumer, two b.producer)
    where
      one : (c : Consumer T) → consumer_waits c ≤ 1
      one Consumer.waiting = omega arith
      one Consumer.outside = omega arith
      one Consumer.woken = omega arith

      two : (p : Producer T) → producer_waits p ≤ 1
      two (Producer.waiting x) = omega arith
      two Producer.outside = omega arith
      two (Producer.woken x) = omega arith
