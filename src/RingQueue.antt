-- ===== src/RingQueue.antt =====
-- 11.sem_cp/RingQueue.hpp: `RingQueue`, a bounded queue over a vector with two semaphores and two
-- mutexes, used by any number of producer and consumer threads. Each access to shared memory is a
-- step; the threads interleave in any order. `p_step++; p_step %= cap_` is one step, since only
-- the holder of the mutex reads or writes `p_step`; so for `c_step`.
pub mod Window
pub mod Invariant
pub mod Producer
pub mod Consumer
pub mod Moves
pub mod Fifo
pub mod Progress
mod Tests
use linux_cpp.Common.{
  ℕ, zero, suc, ◌%◌, ◌<◌, ◌≡◌, List, [], ◌∷◌, ◌++◌, Bool, true, false, length, get_elem?, get_or,
  set, replicate, Option, some,
}

module _ (A : Type 0) where
  -- `ins` and `outs` are the values in the order in which they were put in and taken out.
  pub record RingQueue : Type 0 where
    pub ringqueue : List A
    pub cap : ℕ
    pub c_step : ℕ
    pub p_step : ℕ
    pub cdata_sem : ℕ
    pub pspace_sem : ℕ
    pub c_mutex : Bool
    pub p_mutex : Bool
    pub ins : List A
    pub outs : List A

  -- Where a thread stands in `Push` or `Pop`.
  pub data Pc : Type 0 where
    idle : Pc
    push_wait : A → Pc  -- before P(pspace_sem_)
    push_lock : A → Pc  -- before Lock(p_mutex_)
    push_write : A → Pc  -- before the store
    push_step : A → Pc  -- before the index moves
    push_post : Pc  -- before V(cdata_sem_)
    push_unlock : Pc  -- before UnLock(p_mutex_)
    pop_wait : Pc  -- before P(cdata_sem_)
    pop_lock : Pc  -- before Lock(c_mutex_)
    pop_read : Pc  -- before the load
    pop_step : A → Pc  -- before the index moves
    pop_unlock : Pc  -- before UnLock(c_mutex_)
    pop_post : Pc  -- before V(pspace_sem_)

  -- `vector(cap_)` holds default values.
  abbrev pub init : A → ℕ → RingQueue
  init default limit = record {
    ringqueue = replicate limit default;
    cap = limit;
    c_step = 0;
    p_step = 0;
    cdata_sem = 0;
    pspace_sem = limit;
    c_mutex = false;
    p_mutex = false;
    ins = [];
    outs = [];
  }

  -- One step of one thread. A thread that waits has no step until the semaphore is positive or
  -- the mutex free.
  pub data Move (m : RingQueue) : Pc → RingQueue → Pc → Type 0 where
    push : (x : A) → Move m idle m (push_wait x)
    take_space :
        {x : A} (n : ℕ)
        → m.pspace_sem ≡ suc n
        → Move m (push_wait x) (record m { pspace_sem = n }) (push_lock x)
    lock_p :
        {x : A}
        → m.p_mutex ≡ false
        → Move m (push_lock x) (record m { p_mutex = true }) (push_write x)
    write :
        {x : A}
        → Move m (push_write x) (record m { ringqueue = set m.ringqueue m.p_step x }) (push_step x)
    step_p :
        {x : A}
        → Move m
            (push_step x)
            (record m { p_step = suc m.p_step % m.cap; ins = m.ins ++ x ∷ [] })
            push_post
    post_data : Move m push_post (record m { cdata_sem = suc m.cdata_sem }) push_unlock
    unlock_p : Move m push_unlock (record m { p_mutex = false }) idle
    pop : Move m idle m pop_wait
    take_data :
        (n : ℕ) → m.cdata_sem ≡ suc n → Move m pop_wait (record m { cdata_sem = n }) pop_lock
    lock_c : m.c_mutex ≡ false → Move m pop_lock (record m { c_mutex = true }) pop_read
    read : {x : A} → get_elem? m.ringqueue m.c_step ≡ some x → Move m pop_read m (pop_step x)
    step_c :
        {x : A}
        → Move m
            (pop_step x)
            (record m { c_step = suc m.c_step % m.cap; outs = m.outs ++ x ∷ [] })
            pop_unlock
    unlock_c : Move m pop_unlock (record m { c_mutex = false }) pop_post
    post_space : Move m pop_post (record m { pspace_sem = suc m.pspace_sem }) idle

  pub record System : Type 0 where
    pub mem : RingQueue
    pub threads : List Pc

  pub data Step (s : System) : System → Type 0 where
    pick :
        (i : ℕ) {m : RingQueue} {p : Pc}
        → i < length s.threads
        → Move s.mem (get_or s.threads i idle) m p
        → Step s (record { mem = m; threads = set s.threads i p })

  -- `n` threads over a queue of capacity `limit`.
  pub data Reach (default : A) (limit n : ℕ) : System → Type 0 where
    start : Reach default limit n (record { mem = init default limit; threads = replicate n idle })
    later : {s t : System} → Reach default limit n s → Step s t → Reach default limit n t
