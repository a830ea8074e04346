-- ===== src/BlockQueue/Tests.antt =====
-- A queue of the default capacity, with one value put in and the consumer asleep.
use linux_cpp.Common.{ℕ, ◌+◌, ◌≤◌, ◌≡◌, refl, [], ◌∷◌, ◌++◌, true, false, length, arith}
use linux_cpp.BlockQueue.{
  BlockQueue, Consumer, Producer, take_from, pop, pop_woken, push, push_woken, Step, pops, pops_on,
  pushes, Reach, AnyReach, start, later,
}
use linux_cpp.BlockQueue.Invariant.{
  AnyReach-fifo, consumer_waits, producer_waits, Reach_bounds, Reach_awake,
}
use linux_cpp.BlockQueue.Deadlock.{deadlock, Reach-deadlock, AnyReach-fault}

abbrev one_value : BlockQueue ℕ
one_value = record {
  q = 8 ∷ [];
  maxcap = 5;
  low_water = 1;
  high_water = 3;
  consumer = Consumer.outside;
  producer = Producer.outside;
  ins = 7 ∷ 8 ∷ [];
  outs = 7 ∷ [];
  fault = false;
}

run : Reach ℕ 5 one_value
unfolding pop pop_woken push take_from push_woken
run =
    later (later (later (later start (pops refl refl)) (pushes 7 refl refl)) (pushes 8 refl refl))
      (pops_on refl refl)

any_run : AnyReach ℕ 5 one_value
unfolding pop pop_woken push take_from push_woken
any_run =
    later (later (later (later start (pops refl refl)) (pushes 7 refl refl)) (pushes 8 refl refl))
      (pops_on refl refl)

AnyReach-fifo_example : one_value.ins ≡ one_value.outs ++ one_value.q
AnyReach-fifo_example = AnyReach-fifo 5 one_value any_run

Reach_bounds_example : (one_value.fault ≡ false) × (length one_value.q ≤ 5)
Reach_bounds_example = Reach_bounds 5 one_value run

Reach_awake_example : consumer_waits one_value.consumer + producer_waits one_value.producer ≤ 1
Reach_awake_example = Reach_awake 5 one_value (omega arith) run

Reach-deadlock_example :
    Reach ℕ 3 (deadlock 7 3) × ((b : BlockQueue ℕ) → Step ℕ (deadlock 7 3) b → ⊥)
Reach-deadlock_example = Reach-deadlock 7 3 (omega arith) (omega arith)

AnyReach-fault_example : (b : BlockQueue ℕ) × AnyReach ℕ 5 b × (b.fault ≡ true)
AnyReach-fault_example = AnyReach-fault 5
