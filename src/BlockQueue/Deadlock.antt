-- ===== src/BlockQueue/Deadlock.antt =====
-- Where the queue goes wrong: small capacities, and waits that return with no signal.
use linux_cpp.Common.{ℕ, zero, suc, ◌*◌, ◌/◌, ◌<◌, ◌≡◌, refl, [], true, false, replicate, arith}
use linux_cpp.BlockQueue.{
  BlockQueue, Consumer, Producer, take_from, pop, pop_woken, push, push_woken, Step, pops, pops_on,
  pushes, pushes_on, pop_returns, Reach, AnyReach, start, later, returned,
}

module _ {T : Type 0} (x : T) where
  -- The consumer and the producer wait both, and the queue is empty.
  abbrev pub deadlock : ℕ → BlockQueue T
  deadlock maxcap = record {
    q = [];
    maxcap = maxcap;
    low_water = maxcap / 3;
    high_water = maxcap * 2 / 3;
    consumer = Consumer.waiting;
    producer = Producer.waiting x;
    ins = replicate maxcap x;
    outs = replicate maxcap x;
    fault = false;
  }

  -- Neither side makes a step from there.
  deadlock-stuck : (maxcap : ℕ) (b : BlockQueue T) → Step T (deadlock maxcap) b → ⊥
  deadlock-stuck maxcap b (pops f e) = absurd (ground (arith, e))
  deadlock-stuck maxcap b (pops_on f e) = absurd (ground (arith, e))
  deadlock-stuck maxcap b (pushes y f e) = absurd (ground (arith, e))
  deadlock-stuck maxcap b (pushes_on y f e) = absurd (ground (arith, e))

  deadlock-Reach : (maxcap : ℕ) → 0 < maxcap → maxcap < 4 → Reach T maxcap (deadlock maxcap)
  unfolding pop push take_from push_woken
  deadlock-Reach zero h k = absurd (omega arith)
  deadlock-Reach (suc zero) h k =
      later (later (later (later start (pushes x refl refl)) (pushes x refl refl)) (pops refl refl))
        (pops refl refl)
  deadlock-Reach (suc (suc zero)) h k =
      later
        (later
          (later
            (later (later (later start (pushes x refl refl)) (pushes x refl refl))
              (pushes x refl refl))
            (pops refl refl))
          (pops refl refl))
        (pops refl refl)
  deadlock-Reach (suc (suc (suc zero))) h k =
      later
        (later
          (later
            (later
              (later
                (later (later (later start (pushes x refl refl)) (pushes x refl refl))
                  (pushes x refl refl))
                (pushes x refl refl))
              (pops refl refl))
            (pops refl refl))
          (pops refl refl))
        (pops refl refl)
  deadlock-Reach (suc (suc (suc (suc n)))) h k = absurd (omega arith)

  -- One consumer and one producer, with a capacity of 1, 2 or 3, the producer putting in the same
  -- value again and again: a state is reached with no spurious wake-up in which both wait, and no
  -- step of either leads out of it, so that only a spurious wake-up does.
  pub Reach-deadlock :
      (maxcap : ℕ)
      → 0 < maxcap
      → maxcap < 4
      → Reach T maxcap (deadlock maxcap) × ((b : BlockQueue T) → Step T (deadlock maxcap) b → ⊥)
  Reach-deadlock maxcap h k = (deadlock-Reach maxcap h k, deadlock-stuck maxcap)

-- Whatever the capacity, one wait of the consumer that returns with no signal makes it take a value
-- from an empty queue.
pub AnyReach-fault :
    {T : Type 0} (maxcap : ℕ) → (b : BlockQueue T) × AnyReach T maxcap b × (b.fault ≡ true)
unfolding pop pop_woken take_from
AnyReach-fault maxcap = (
  _,
  later (returned (later start (pops refl refl)) (pop_returns refl)) (pops_on refl refl),
  refl,
)
