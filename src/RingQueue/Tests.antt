-- ===== src/RingQueue/Tests.antt =====
-- One producer and one consumer over a queue with one slot.
use linux_cpp.Common.{ℕ, ◌≤◌, ◌≡◌, refl, List, [], ◌∷◌, ◌++◌, length, arith}
use linux_cpp.RingQueue.{
  push, take_space, lock_p, write, step_p, post_data, unlock_p, pop, take_data, lock_c, System,
  pick, Reach, start, later,
}
use linux_cpp.RingQueue.Fifo.{Reach_fifo}
use linux_cpp.RingQueue.Progress.{Progress, Reach-Progress}

-- Thread 0 pushes 7 into a queue of two slots; then it is about to push 8, and thread 1 to load.
abbrev contended : (s : System ℕ) × Reach ℕ 0 2 2 s
contended = (
  _,
  later
      (later
        (later
          (later
            (later
              (later
                (later
                  (later
                    (later
                      (later
                        (later
                          (later (later start (pick 0 (omega arith) (push 7)))
                            (pick 0 (omega arith) (take_space 1 refl)))
                          (pick 0 (omega arith) (lock_p refl)))
                        (pick 0 (omega arith) write))
                      (pick 0 (omega arith) step_p))
                    (pick 0 (omega arith) post_data))
                  (pick 0 (omega arith) unlock_p))
                (pick 1 (omega arith) pop))
              (pick 1 (omega arith) (take_data 0 refl)))
            (pick 1 (omega arith) (lock_c refl)))
          (pick 0 (omega arith) (push 8)))
        (pick 0 (omega arith) (take_space 0 refl)))
      (pick 0 (omega arith) (lock_p refl)),
)

Reach_fifo_example : (rest : List ℕ) × (7 ∷ [] ≡ [] ++ rest) × (length rest ≤ 2)
Reach_fifo_example = Reach_fifo (omega arith) contended.1

Reach-Progress_example : Progress 2 contended.0
Reach-Progress_example = Reach-Progress (omega arith) (omega arith) contended.1
