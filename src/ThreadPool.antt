-- ===== src/ThreadPool.antt =====
-- Socket/3. chat_server/ThreadPool.hpp (the same file stands in Socket/4. tcp_echo_server): the
-- thread pool. All shared fields are read and written under `_mutex`, so that a step is what one
-- thread does between taking and giving up the mutex; pthread_cond_wait gives it up, and may
-- return with no signal.
pub mod Counts
pub mod Invariant
pub mod Service
pub mod Stopping
pub mod Taken
pub mod Singleton
mod Tests
use linux_cpp.Common.{
  ℕ, zero, suc, ◌+◌, ◌-◌, ◌<◌, ◌≡◌, List, [], ◌∷◌, ◌++◌, Bool, true, false, if◌then◌else◌, ltb,
  length, get_or, set, replicate, map, Bytes, codes, to_string, total,
}

-- The names that `Init` gives to the threads, "thread-1" on.
pub thread_names : ℕ → ℕ → List Bytes
thread_names zero i = []
thread_names (suc rounds) i = (codes "thread-" ++ to_string (i + 1)) ∷ thread_names rounds (suc i)

module _ (T : Type 0) where
  -- `accepted` and `taken` are the tasks in the order in which they were queued and taken.
  pub record ThreadPool : Type 0 where
    pub task_queue : List T
    pub isrunning : Bool
    pub sleep_thread_num : ℕ
    pub accepted : List T
    pub taken : List T

  -- Where a thread stands in `HandlerTask`.
  pub data Pc : Type 0 where
    ready : Pc  -- before LockQueue
    sleeping : Pc  -- in pthread_cond_wait
    woken : Pc  -- out of the wait, before it has the mutex again
    busy : T → Pc  -- runs a task, outside the mutex
    quit : Pc  -- has left the loop

  -- After the constructor and `Start`.
  abbrev pub start_pool : ThreadPool
  start_pool = record {
    task_queue = [];
    isrunning = true;
    sleep_thread_num = 0;
    accepted = [];
    taken = [];
  }

  -- From the test of the inner loop to giving up the mutex: the thread sleeps, quits, or takes the
  -- first task.
  unfoldable pub take_or_wait : List T → ThreadPool → ThreadPool × Pc
  take_or_wait [] p =
      if p.isrunning
      then (record p { sleep_thread_num = suc p.sleep_thread_num }, sleeping)
      else (p, quit)
  take_or_wait (t ∷ ts) p = (record p { task_queue = ts; taken = p.taken ++ t ∷ [] }, busy t)

  unfoldable pub handler_task : ThreadPool → ThreadPool × Pc
  unfolding take_or_wait
  handler_task p = take_or_wait p.task_queue p

  -- After the wait.
  pub handler_woken : ThreadPool → ThreadPool × Pc
  unfolding handler_task
  handler_woken p = handler_task (record p { sleep_thread_num = p.sleep_thread_num - 1 })

  -- `Equeue`: the pool, and whether it signals. A task is dropped when the pool is stopped.
  unfoldable pub equeue : T → ThreadPool → ThreadPool × Bool
  equeue t p =
      if p.isrunning
      then (
        record p { task_queue = p.task_queue ++ t ∷ []; accepted = p.accepted ++ t ∷ [] },
        ltb 0 p.sleep_thread_num,
      )
      else (p, false)

  -- `Stop`, and the broadcast.
  pub stop : ThreadPool → ThreadPool
  stop p = record p { isrunning = false }

  abbrev pub wake : Pc → Pc
  wake sleeping = woken
  wake p = p

  abbrev pub asleep : Pc → ℕ
  asleep sleeping = 1
  asleep _ = 0

  pub record System : Type 0 where
    pub pool : ThreadPool
    pub threads : List Pc

  -- pthread_cond_signal: one sleeping thread, if there is one, leaves its wait.
  pub data Signal (ts : List Pc) : Bool → List Pc → Type 0 where
    no_signal : Signal ts false ts
    unheard : total asleep ts ≡ 0 → Signal ts true ts
    heard : (i : ℕ) → i < length ts → get_or ts i quit ≡ sleeping → Signal ts true (set ts i woken)

  -- What a thread of the pool does.
  pub data ThreadStep (s : System) : System → Type 0 where
    work :
        (i : ℕ)
        → i < length s.threads
        → get_or s.threads i quit ≡ ready
        → ThreadStep s (record {
          pool = (handler_task s.pool).0;
          threads = set s.threads i (handler_task s.pool).1;
        })
    resume :
        (i : ℕ)
        → i < length s.threads
        → get_or s.threads i quit ≡ woken
        → ThreadStep s (record {
          pool = (handler_woken s.pool).0;
          threads = set s.threads i (handler_woken s.pool).1;
        })
    spurious :
        (i : ℕ)
        → i < length s.threads
        → get_or s.threads i quit ≡ sleeping
        → ThreadStep s (record { pool = s.pool; threads = set s.threads i woken })
    finish :
        (i : ℕ) (t : T)
        → i < length s.threads
        → get_or s.threads i quit ≡ busy t
        → ThreadStep s (record { pool = s.pool; threads = set s.threads i ready })

  -- What a thread of the pool does, or the threads that use it.
  pub data Step (s : System) : System → Type 0 where
    worker : {t : System} → ThreadStep s t → Step s t
    submit :
        (t : T) {ts : List Pc}
        → Signal s.threads (equeue t s.pool).1 ts
        → Step s (record { pool = (equeue t s.pool).0; threads = ts })
    stops : Step s (record { pool = stop s.pool; threads = map wake s.threads })

  -- A pool of `n` threads after `Start`, and what it comes to.
  pub data Reach (n : ℕ) : System → Type 0 where
    start : Reach n (record { pool = start_pool; threads = replicate n ready })
    later : {s t : System} → Reach n s → Step s t → Reach n t
