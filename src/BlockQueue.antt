-- ===== src/BlockQueue.antt =====
-- 10.blockqueue/BlockQueue.hpp and main.cc: the blocking queue, with the one consumer and the one
-- producer of `main`. A step is one critical section: pthread_cond_wait gives up the mutex, and may
-- return with no signal. The file as it stands does not compile (`pthread_mutex_ubnlock`); the
-- misspelt calls are read as the calls meant.
pub mod Invariant
pub mod Deadlock
mod Tests
use linux_cpp.Common.{
  ℕ, ◌+◌, ◌*◌, ◌/◌, ◌≡◌, List, [], ◌∷◌, ◌++◌, Bool, true, false, if◌then◌else◌, ◌==◌, ltb, length,
}

module _ (T : Type 0) where
  -- Where the consumer stands in `pop`.
  pub data Consumer : Type 0 where
    outside : Consumer
    waiting : Consumer  -- in pthread_cond_wait on c_cond_
    woken : Consumer  -- out of the wait, before it has the mutex again

  -- Where the producer stands in `push`.
  pub data Producer : Type 0 where
    outside : Producer
    waiting : T → Producer  -- in pthread_cond_wait on p_cond_
    woken : T → Producer

  -- `ins` and `outs` are the values in the order in which they were put in and taken out. With
  -- `fault` the code has called `front` on an empty queue; nothing is said of what follows.
  pub record BlockQueue : Type 0 where
    pub q : List T
    pub maxcap : ℕ
    pub low_water : ℕ
    pub high_water : ℕ
    pub consumer : Consumer
    pub producer : Producer
    pub ins : List T
    pub outs : List T
    pub fault : Bool

  abbrev pub construct : ℕ → BlockQueue
  construct maxcap = record {
    q = [];
    maxcap = maxcap;
    low_water = maxcap / 3;
    high_water = maxcap * 2 / 3;
    consumer = Consumer.outside;
    producer = Producer.outside;
    ins = [];
    outs = [];
    fault = false;
  }

  -- pthread_cond_signal of `c_cond_` and of `p_cond_`.
  abbrev pub signal_c : Consumer → Consumer
  signal_c waiting = woken
  signal_c outside = outside
  signal_c woken = woken

  abbrev pub signal_p : Producer → Producer
  signal_p (waiting x) = woken x
  signal_p outside = outside
  signal_p (woken x) = woken x

  -- `pop` from `q_.front()` on.
  pub take_from : List T → BlockQueue → BlockQueue
  take_from [] b = record b { consumer = Consumer.outside; fault = true }
  take_from (x ∷ xs) b = record b {
    q = xs;
    outs = b.outs ++ x ∷ [];
    consumer = Consumer.outside;
    producer = if ltb b.high_water (length xs) then signal_p b.producer else b.producer;
  }

  -- `pop`, and `pop` after the wait.
  pub pop : BlockQueue → BlockQueue
  unfolding take_from
  pop b = if length b.q == 0 then record b { consumer = Consumer.waiting } else take_from b.q b

  pub pop_woken : BlockQueue → BlockQueue
  unfolding take_from
  pop_woken b = take_from b.q b

  -- `push` from `q_.push(in)` on, which is also what it does after the wait.
  pub push_woken : T → BlockQueue → BlockQueue
  push_woken x b = record b {
    q = b.q ++ x ∷ [];
    ins = b.ins ++ x ∷ [];
    producer = Producer.outside;
    consumer = signal_c b.consumer;
  }

  pub push : T → BlockQueue → BlockQueue
  unfolding push_woken
  push x b = if length b.q == b.maxcap then record b { producer = waiting x } else push_woken x b

  -- A step with no spurious wake-up.
  pub data Step (b : BlockQueue) : BlockQueue → Type 0 where
    pops : b.fault ≡ false → b.consumer ≡ Consumer.outside → Step b (pop b)
    pops_on : b.fault ≡ false → b.consumer ≡ Consumer.woken → Step b (pop_woken b)
    pushes : (x : T) → b.fault ≡ false → b.producer ≡ Producer.outside → Step b (push x b)
    pushes_on : (x : T) → b.fault ≡ false → b.producer ≡ woken x → Step b (push_woken x b)

  -- A wait that returns with no signal.
  pub data Spurious (b : BlockQueue) : BlockQueue → Type 0 where
    pop_returns :
        b.consumer ≡ Consumer.waiting → Spurious b (record b { consumer = Consumer.woken })
    push_returns : (x : T) → b.producer ≡ waiting x → Spurious b (record b { producer = woken x })

  pub data Reach (maxcap : ℕ) : BlockQueue → Type 0 where
    start : Reach maxcap (construct maxcap)
    later : {b b' : BlockQueue} → Reach maxcap b → Step b b' → Reach maxcap b'

  -- With spurious wake-ups as well.
  pub data AnyReach (maxcap : ℕ) : BlockQueue → Type 0 where
    start : AnyReach maxcap (construct maxcap)
    later : {b b' : BlockQueue} → AnyReach maxcap b → Step b b' → AnyReach maxcap b'
    returned : {b b' : BlockQueue} → AnyReach maxcap b → Spurious b b' → AnyReach maxcap b'
