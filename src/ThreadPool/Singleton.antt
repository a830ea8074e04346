-- ===== src/ThreadPool/Singleton.antt =====
-- `GetInstance` of Socket/3. chat_server/ThreadPool.hpp: the singleton, made on the first call by
-- a test, a lock and a second test. Each access to shared memory is a step of some calling
-- thread.
pub mod Once
use linux_cpp.Common.{
  ℕ, suc, ◌+◌, ◌<◌, ◌≡◌, List, [], ◌∷◌, Bool, true, false, length, get_or, set, replicate,
}

-- What has been done with the pool that `_tp` points to. Only a started pool accepts tasks.
pub data Pool : Type 0 where
  absent : Pool  -- nullptr
  constructed : Pool
  initialised : Pool
  started : Pool

pub record Memory : Type 0 where
  pub tp : Pool
  pub sig_mutex : Bool
  pub created : ℕ  -- how many pools `new` has made

-- Where a thread stands in `GetInstance`.
pub data Caller : Type 0 where
  entering : Caller  -- before the first test
  locking : Caller  -- before the LockGuard
  testing : Caller  -- before the second test
  creating : Caller  -- before `_tp = new ThreadPool<T>()`
  initing : Caller  -- before `_tp->Init()`
  starting : Caller  -- before `_tp->Start()`
  unlocking : Caller  -- before the end of the LockGuard's block
  returning : Caller  -- before `return _tp`
  returned : Pool → Caller  -- with what `_tp` pointed to

abbrev pub after_first : Pool → Caller
after_first absent = locking
after_first constructed = returning
after_first initialised = returning
after_first started = returning

abbrev pub after_second : Pool → Caller
after_second absent = creating
after_second constructed = unlocking
after_second initialised = unlocking
after_second started = unlocking

-- One step of one caller.
pub data Move (m : Memory) : Caller → Memory → Caller → Type 0 where
  first_test : Move m entering m (after_first m.tp)
  lock : m.sig_mutex ≡ false → Move m locking (record m { sig_mutex = true }) testing
  second_test : Move m testing m (after_second m.tp)
  create : Move m creating (record m { tp = constructed; created = suc m.created }) initing
  init : Move m initing (record m { tp = initialised }) starting
  start_it : Move m starting (record m { tp = started }) unlocking
  unlock : Move m unlocking (record m { sig_mutex = false }) returning
  return_tp : Move m returning m (returned m.tp)

pub record Calls : Type 0 where
  pub mem : Memory
  pub callers : List Caller

pub data CallStep (s : Calls) : Calls → Type 0 where
  pick :
      (i : ℕ) {m : Memory} {p : Caller}
      → i < length s.callers
      → Move s.mem (get_or s.callers i entering) m p
      → CallStep s (record { mem = m; callers = set s.callers i p })

-- `n` threads that call `GetInstance` of a program that has not yet done so.
pub data CallReach (n : ℕ) : Calls → Type 0 where
  begin : CallReach n (record {
    mem = record { tp = absent; sig_mutex = false; created = 0 };
    callers = replicate n entering;
  })
  next : {s t : Calls} → CallReach n s → CallStep s t → CallReach n t
