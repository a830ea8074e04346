-- ===== src/ProcessPool.antt =====
-- 2.ProcessPool/ProcessPool.cc and Task.hpp: the pool of child processes, each with a pipe from the
-- parent. A table of descriptors lists the ends of pipes that a process holds; fork copies it. The
-- answers of pipe, fork and rand are parameters, by the number of the call.
pub mod Pipes
pub mod Stdin
pub mod Dispatch
pub mod Work
mod Tests
use linux_cpp.Common.{
  ℕ, zero, suc, ◌+◌, ◌%◌, List, [], ◌∷◌, ◌++◌, Bool, true, false, if◌then◌else◌, ℤ, pos, ltz, eqb,
  Bytes, codes, to_string, length, get_or, get_elem?, ltb, negsuc, Option, none, some, map_option,
}

-- An end of the `i`th pipe.
pub data End : Type 0 where
  read_end write_end : (i : ℕ) → End

abbrev pub Table : Type 0
Table = List (ℤ × End)

unfoldable pub close_fd : ℤ → Table → Table
close_fd fd [] = []
close_fd fd ((x, e) ∷ table) = if eqb x fd then close_fd fd table else ((x, e) ∷ close_fd fd table)

unfoldable pub lookup : ℤ → Table → Option End
lookup fd [] = none
lookup fd ((x, e) ∷ table) = if eqb x fd then some e else lookup fd table

-- `dup2(oldfd, newfd)`
pub dup2 : ℤ → ℤ → Table → Table
dup2 oldfd newfd table = elim (lookup oldfd table) [
  | none ↦ table
  | some e ↦ (newfd, e) ∷ close_fd newfd table
]

pub record Pipe : Type 0 where
  pub ret : ℤ
  pub rfd : ℤ
  pub wfd : ℤ

pub record Channel : Type 0 where
  pub wfd : ℤ
  pub subprocessid : ℤ
  pub name : Bytes

-- A child when it calls `task`; `index` is the turn in which it was forked.
pub record Child : Type 0 where
  pub index : ℕ
  pub table : Table

pub record World : Type 0 where
  pub table : Table
  pub channels : List Channel
  pub children : List Child

pub data Result : Type 0 where
  made : World → Result
  exited : (status : ℕ) → World → Result

-- `CloseChannel` on every channel.
unfoldable pub close_channels : List Channel → Table → Table
close_channels [] table = table
close_channels (channel ∷ channels) table = close_channels channels (close_fd channel.wfd table)

-- What the child does before `task`.
pub child_side : List Channel → Pipe → Table → Table
unfolding dup2
child_side channels p table = dup2 p.rfd (pos 0) (close_fd p.wfd (close_channels channels table))

-- One turn of `CreateChannelAndSub` after pipe has succeeded. When fork fails there is no child,
-- and the channel is made all the same.
pub create_one : ℕ → Pipe → ℤ → World → World
unfolding child_side
create_one i p id w =
    let table : Table = (p.rfd, read_end i) ∷ (p.wfd, write_end i) ∷ w.table in
    record {
      table = close_fd p.rfd table;
      channels =
          w.channels
          ++ (record { wfd = p.wfd; subprocessid = id; name = codes "Channel - " ++ to_string i }
              ∷ []);
      children =
          if ltz id (pos 0)
          then w.children
          else (record { index = i; table = child_side w.channels p table } ∷ w.children);
    }

module _ (pipe : ℕ → Pipe) (fork : ℕ → ℤ) where
  -- `CreateChannelAndSub` from turn `i` on.
  pub create_from : (rounds i : ℕ) → World → Result
  unfolding create_one
  create_from zero i w = made w
  create_from (suc rounds) i w =
      let rest = create_from rounds (suc i) (create_one i (pipe i) (fork i) w) in
      if ltz (pipe i).ret (pos 0) then exited 1 w else rest

  pub create_channel_and_sub : ℕ → Result
  create_channel_and_sub num =
      create_from num 0 (record { table = []; channels = []; children = [] })

-- `CleanUpChannel`: the parent's table after it; `Wait` changes no descriptor.
pub clean_up_channel : World → World
clean_up_channel w = record w { table = close_channels w.channels w.table }

-- `NextChannel`: the channel, and the static `next` after the call.
pub next_channel : ℕ → ℕ → ℕ × ℕ
next_channel channelnum next = (next, suc next % channelnum)

pub data Task : Type 0 where
  print down_load flush : Task

abbrev pub task_num : ℕ
task_num = 3

abbrev pub tasks : List Task
tasks = print ∷ down_load ∷ flush ∷ []

-- `ExcuteTask`: the task that runs, if one does.
pub excute_task : ℤ → Option Task
excute_task (negsuc n) = none
excute_task (pos n) = if ltb 2 n then none else get_elem? tasks n

-- What `read(0, &command, sizeof(command))` answers.
pub record Read : Type 0 where
  pub n : ℤ
  pub command : ℤ

pub run_task : ℤ → List Task → List Task
unfolding excute_task
run_task command rest = elim (excute_task command) [ none ↦ rest | some t ↦ t ∷ rest ]

-- `work2` from the `k`th read on, with `fuel` for its reads: the tasks that it runs, once it has
-- left its loop.
pub work2 : (ℕ → Read) → (fuel k : ℕ) → Option (List Task)
unfolding run_task
work2 read zero k = none
work2 read (suc fuel) k =
    let rest = work2 read fuel (suc k) in
    if eqb (read k).n (pos 4)
    then map_option (run_task (read k).command) rest
    else if eqb (read k).n (pos 0)
    then some []
    else rest

pub record Command : Type 0 where
  pub channel : Channel
  pub taskcommand : ℕ

module _ (rand : ℕ → ℕ) where
  pub select_task : ℕ → ℕ
  select_task k = rand k % task_num

  -- `ctrlProcess` with a positive `times`: the commands written, in order. `unmade` is read only
  -- when there are no channels.
  pub ctrl_process : Channel → List Channel → (times k next : ℕ) → List Command
  unfolding next_channel select_task
  ctrl_process unmade channels zero k next = []
  ctrl_process unmade channels (suc times) k next =
      let (channel_index, next') = next_channel (length channels) next in
      record { channel = get_or channels channel_index unmade; taskcommand = select_task k }
      ∷ ctrl_process unmade channels times (suc k) next'
