-- ===== src/ProcessPool/Tests.antt =====
-- Two children, and three commands.
use linux_cpp.Common.{
  ◌<◌, List, zero, suc, total, ℕ, ◌≤◌, eqb_iff, ◌+◌, ◌≡◌, ◌≢◌, refl, [], ◌∷◌, ℤ, pos, Option, some,
  length, codes, map, arith,
}
use linux_cpp.ProcessPool.{
  Pipe, Channel, Command, Child, End, read_end, lookup, create_channel_and_sub, create_from,
  create_one, child_side, close_fd, close_channels, dup2, clean_up_channel, ctrl_process, Read,
  work2, next_channel, select_task,
}
use linux_cpp.ProcessPool.Work.{
  Answers, ends, gives, fails, tasks_of, written_to, ran, ctrl_process-work2,
}
use linux_cpp.ProcessPool.Stdin.{Fed, create_channel_and_sub-Fed}
use linux_cpp.ProcessPool.Pipes.{world, Deaf, write_ends, create_channel_and_sub-Deaf}

-- The read end is closed in the parent each time, so that its number comes back.
abbrev sample_pipe : ℕ → Pipe
sample_pipe i = record { ret = pos 0; rfd = pos 3; wfd = pos (4 + i) }

abbrev sample_fork : ℕ → ℤ
sample_fork i = pos (100 + i)

-- Each child reads its own pipe on descriptor 0.
stdin_test :
    map {B = ℕ × Option End}
      (λ (c : Child). (c.index, lookup (pos 0) c.table))
      (world (create_channel_and_sub sample_pipe sample_fork 2)).children
    ≡ (1, some (read_end 1)) ∷ (0, some (read_end 0)) ∷ []
unfolding create_channel_and_sub create_from create_one child_side dup2 lookup close_fd
    close_channels
stdin_test = refl

create_channel_and_sub-Deaf_example :
    Deaf (world (create_channel_and_sub sample_pipe sample_fork 2)).children
    × (write_ends
          (clean_up_channel (world (create_channel_and_sub sample_pipe sample_fork 2))).table
        ≡ 0)
create_channel_and_sub-Deaf_example = create_channel_and_sub-Deaf sample_pipe sample_fork 2

abbrev channel_0 : Channel
channel_0 = record { wfd = pos 4; subprocessid = pos 100; name = codes "Channel - 0" }

abbrev channel_1 : Channel
channel_1 = record { wfd = pos 5; subprocessid = pos 101; name = codes "Channel - 1" }

sample_fresh : (i j : ℕ) → j ≤ i → (sample_pipe i).rfd ≢ (sample_pipe j).wfd
sample_fresh i j h e = ground (arith, eqb_iff (pos 3) (pos (4 + j)))

-- A pipe that holds these commands and has no writer any more.
abbrev full_pipe : List ℤ → ℕ → Read
full_pipe [] k = record { n = pos 0; command = pos 0 }
full_pipe (c ∷ cs) zero = record { n = pos 4; command = c }
full_pipe (c ∷ cs) (suc k) = full_pipe cs k

Answers-later :
    (read : ℕ → Read) {rounds k : ℕ} {cs : List ℤ}
    → Answers (λ j. read (suc j)) rounds k cs
    → Answers read rounds (suc k) cs
Answers-later read (ends e) = ends e
Answers-later read (gives e a) = gives e (Answers-later read a)
Answers-later read (fails e a) = fails e (Answers-later read a)

full_pipe-Answers : (cs : List ℤ) (fuel : ℕ) → length cs < fuel → Answers (full_pipe cs) fuel 0 cs
full_pipe-Answers cs zero h = absurd (omega arith)
full_pipe-Answers [] (suc fuel) h = ends refl
full_pipe-Answers (c ∷ cs) (suc fuel) h =
    gives refl (Answers-later (full_pipe (c ∷ cs)) (full_pipe-Answers cs fuel (omega arith)))

length-written_to : (fd : ℤ) (cs : List Command) → length (written_to fd cs) ≤ length cs
length-written_to fd [] = omega arith
length-written_to fd (c ∷ cs) = ground (arith, length-written_to fd cs)

abbrev three_commands : List Command
three_commands = ctrl_process (λ k. k) channel_0 (channel_0 ∷ channel_1 ∷ []) 3 0 0

abbrev three_reads : ℤ → ℕ → Read
three_reads fd = full_pipe (written_to fd three_commands)

length-three_commands : length three_commands ≡ 3
unfolding ctrl_process next_channel
length-three_commands = refl

channel_0-commands : written_to (pos 4) three_commands ≡ pos 0 ∷ pos 2 ∷ []
unfolding ctrl_process next_channel select_task
channel_0-commands = refl

ctrl_process-work2_example :
    ((fd : ℤ) → work2 (three_reads fd) 4 0 ≡ some (tasks_of (written_to fd three_commands)))
    × (total (λ (d : Channel). ran (work2 (three_reads d.wfd) 4 0)) (channel_0 ∷ channel_1 ∷ [])
        ≡ 3)
ctrl_process-work2_example =
    ctrl_process-work2 (λ k. k) channel_0 (channel_0 ∷ channel_1 ∷ []) 3 4 three_reads (omega arith)
      (refl, (refl, tt))
      (λ fd.
        full_pipe-Answers (written_to fd three_commands) 4
          (omega (arith, length-written_to fd three_commands, length-three_commands)))

create_channel_and_sub-Fed_example :
    Fed (world (create_channel_and_sub sample_pipe sample_fork 2)).children
create_channel_and_sub-Fed_example =
    create_channel_and_sub-Fed sample_pipe sample_fork sample_fresh 2
