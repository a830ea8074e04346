-- ===== src/TeachPool.antt =====
-- Thread_Pool/Teach_ThreadPool.hpp: an earlier thread pool, which is never stopped and signals on
-- every push. A step is what one thread does between taking and giving up the mutex.
pub mod Sleepers
mod Tests
use linux_cpp.Common.{
  ℕ, zero, suc, ◌+◌, ◌<◌, ◌≡◌, List, [], ◌∷◌, ◌++◌, Bytes, codes, to_string, ℤ, eqb, if◌then◌else◌,
  length, get_or, set, replicate, total,
}

module _ (T : Type 0) where
  -- Where a thread stands in `HandlerTask`.
  pub data Worker : Type 0 where
    ready : Worker  -- before Lock
    waiting : Worker  -- in pthread_cond_wait
    woken : Worker  -- in pthread_cond_wait, before it has the mutex again
    busy : T → Worker  -- runs its task

  -- `taken` and `pushed` record the tasks that were popped and pushed, in order.
  pub record Pool : Type 0 where
    pub tasks : List T
    pub threads : List Worker
    pub pushed : List T
    pub taken : List T

  -- How often a thread is about to take the mutex, and how often it sleeps.
  abbrev pub runs : Worker → ℕ
  runs ready = 1
  runs waiting = 0
  runs woken = 1
  runs (busy t) = 0

  abbrev pub asleep : Worker → ℕ
  asleep ready = 0
  asleep waiting = 1
  asleep woken = 0
  asleep (busy t) = 0

  -- What the `i`th thread does once it has the mutex, new or again.
  pub handler_task : ℕ → Pool → Pool
  handler_task i p = elim p.tasks [
    | [] ↦ record p { threads = set p.threads i waiting }
    | t ∷ ts ↦ record p {
      tasks = ts;
      threads = set p.threads i (busy t);
      taken = p.taken ++ t ∷ [];
    }
  ]

  abbrev pub push : T → Pool → Pool
  push t p = record p { tasks = p.tasks ++ t ∷ []; pushed = p.pushed ++ t ∷ [] }

  pub data Step (p : Pool) : Pool → Type 0 where
    handles :
        (i : ℕ)
        → i < length p.threads
        → runs (get_or p.threads i waiting) ≡ 1
        → Step p (handler_task i p)
    finishes :
        (i : ℕ) {t : T}
        → i < length p.threads
        → get_or p.threads i waiting ≡ busy t
        → Step p (record p { threads = set p.threads i ready })
    push_wakes :
        (t : T) (i : ℕ)
        → i < length p.threads
        → get_or p.threads i ready ≡ waiting
        → Step p (record (push t p) { threads = set p.threads i woken })
    push_alone : (t : T) → total asleep p.threads ≡ 0 → Step p (push t p)
    wakes_up :
        (i : ℕ)
        → i < length p.threads
        → get_or p.threads i ready ≡ waiting
        → Step p (record p { threads = set p.threads i woken })

  -- After `Start` of a pool of `num` threads.
  pub data Reach (num : ℕ) : Pool → Type 0 where
    start :
        Reach num (record { tasks = []; threads = replicate num ready; pushed = []; taken = [] })
    later : {p q : Pool} → Reach num p → Step p q → Reach num q

pub record ThreadInfo : Type 0 where
  pub tid : ℤ
  pub name : Bytes

pub get_thread_name : ℤ → List ThreadInfo → Bytes
get_thread_name tid [] = codes "None"
get_thread_name tid (ti ∷ threads) = if eqb ti.tid tid then ti.name else get_thread_name tid threads
