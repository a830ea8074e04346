-- ===== src/ThreadPool/Service.antt =====
-- What the thread pool promises to those who queue tasks.
use linux_cpp.Common.{◌<◌, ◌≡◌, ◌⊎◌, ℕ, ◌+◌, inl, inr, [], ◌++◌, false, total, sym, ap, ◌∙◌, arith}
use mathlib.Core.List.{append-nil}
use linux_cpp.ThreadPool.{System, Reach, asleep}
use linux_cpp.ThreadPool.Counts.{waking, awake, gone}
use linux_cpp.ThreadPool.Invariant.{Inv, Reach-Inv}

module _ {T : Type 0} where
  -- In every state that a pool of one thread or more reaches, whatever the interleaving and whatever
  -- thread a signal wakes: the tasks accepted are those taken followed by those queued, so that each
  -- is taken at most once, in order, and none is lost.
  pub Reach-fifo :
      (n : ℕ) (s : System T)
      → 0 < n
      → Reach T n s
      → s.pool.accepted ≡ s.pool.taken ++ s.pool.task_queue
  Reach-fifo n s pos r = (Reach-Inv pos r).fifo

  -- In every reachable state of a pool of one thread or more, the queue is empty or some thread is
  -- awake (it runs a task, or will test the queue without being signalled): no wake-up is lost.
  pub Reach-awake :
      (n : ℕ) (s : System T)
      → 0 < n
      → Reach T n s
      → (s.pool.task_queue ≡ []) ⊎ (0 < total awake s.threads)
  Reach-awake n s pos r = (Reach-Inv pos r).served

  -- In every reachable state of a pool of one thread or more, `_sleep_thread_num` is the number of
  -- the threads that wait or have been woken and do not have the mutex yet.
  pub Reach-sleep_thread_num :
      (n : ℕ) (s : System T)
      → 0 < n
      → Reach T n s
      → s.pool.sleep_thread_num ≡ total (asleep T) s.threads + total waking s.threads
  Reach-sleep_thread_num n s pos r = (Reach-Inv pos r).sleepers

  drained_lem :
      {n : ℕ} {s : System T}
      → Inv n s.pool s.threads
      → 0 < total gone s.threads
      → (s.pool.isrunning ≡ false) × (s.pool.taken ≡ s.pool.accepted)
  drained_lem v g = elim v.drained [
    | inl e ↦ absurd (omega (arith, e, g))
    | inr d ↦ (d.0, sym (v.fifo ∙ ap (◌++◌ _) d.1 ∙ append-nil _))
  ]

  -- In every reachable state of a pool of one thread or more in which a thread has left its loop,
  -- the pool has been stopped and every task that it accepted has been taken.
  pub Reach-drained :
      (n : ℕ) (s : System T)
      → 0 < n
      → Reach T n s
      → 0 < total gone s.threads
      → (s.pool.isrunning ≡ false) × (s.pool.taken ≡ s.pool.accepted)
  Reach-drained n s pos r = drained_lem (Reach-Inv pos r)
