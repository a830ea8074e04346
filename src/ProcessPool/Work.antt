-- ===== src/ProcessPool/Work.antt =====
-- The tasks that the children run, and the commands that were sent to them.
use linux_cpp.Common.{
  ℕ, zero, suc, ◌+◌, ◌%◌, ◌≤◌, ◌<◌, ◌≡◌, refl, ap, List, [], ◌∷◌, true, false, map_option,
  if◌then◌else◌, length, get_or, Option, none, some, arith, ℤ, pos, negsuc, ltz, eqb, eqb_self,
  eqb_sym, hit, ◌∙◌, total,
}
use native.Mathlib.Nat.{mod-lt}
use linux_cpp.ProcessPool.{
  Channel, Command, Task, Read, ctrl_process, next_channel, select_task, excute_task, run_task,
  work2,
}

-- What `ExcuteTask` runs for these commands, in order.
abbrev pub tasks_of : List ℤ → List Task
tasks_of [] = []
tasks_of (c ∷ cs) = run_task c (tasks_of cs)

-- Reads, from the `k`th on, that give these commands and then the end of the pipe, at the latest in
-- the `rounds`th of them; a read may fail in between.
pub data Answers (read : ℕ → Read) : (rounds k : ℕ) → List ℤ → Type 0 where
  ends : {rounds k : ℕ} → (read k).n ≡ pos 0 → Answers read (suc rounds) k []
  gives :
      {rounds k : ℕ} {cs : List ℤ}
      → (read k).n ≡ pos 4
      → Answers read rounds (suc k) cs
      → Answers read (suc rounds) k ((read k).command ∷ cs)
  fails :
      {rounds k : ℕ} {cs : List ℤ}
      → ltz (read k).n (pos 0) ≡ true
      → Answers read rounds (suc k) cs
      → Answers read (suc rounds) k cs

not_pos : (x : ℤ) (m : ℕ) → ltz x (pos 0) ≡ true → eqb x (pos m) ≡ false
not_pos (pos n) m e = ground (arith, e)
not_pos (negsuc n) m e = refl

work2-Answers :
    (read : ℕ → Read) {rounds k : ℕ} {cs : List ℤ}
    → Answers read rounds k cs
    → work2 read rounds k ≡ some (tasks_of cs)
unfolding work2
work2-Answers read {k = k} (ends e) =
    ground (arith, ap (λ x. eqb x (pos 4)) e, ap (λ x. eqb x (pos 0)) e)
work2-Answers read {k = k} (gives e a) = ground (
  arith,
  ap (λ x. eqb x (pos 4)) e,
  ap (λ r. map_option (run_task (read k).command) r) (work2-Answers read a),
)
work2-Answers read {k = k} (fails e a) =
    ground (arith, not_pos (read k).n 4 e, not_pos (read k).n 0 e, work2-Answers read a)

-- What is written to the pipe whose write end is `fd`.
abbrev pub written_to : ℤ → List Command → List ℤ
written_to fd [] = []
written_to fd (c ∷ cs) =
    let rest = written_to fd cs in if eqb fd c.channel.wfd then pos c.taskcommand ∷ rest else rest

run_task-length : (n : ℕ) (ts : List Task) → n < 3 → length (run_task (pos n) ts) ≡ suc (length ts)
unfolding run_task excute_task
run_task-length zero ts h = ground arith
run_task-length (suc zero) ts h = ground arith
run_task-length (suc (suc zero)) ts h = ground arith
run_task-length (suc (suc (suc n))) ts h = absurd (omega arith)

-- How many of the channels have the write end `fd`.
abbrev pub writers : ℤ → List Channel → ℕ
writers fd = total (λ (d : Channel). hit d.wfd fd)

-- The channels write to different descriptors.
abbrev pub Apart : List Channel → Type 0
Apart [] = Unit
Apart (c ∷ channels) = (writers c.wfd channels ≡ 0) × Apart channels

hit_sym : (a b : ℤ) → hit a b ≡ hit b a
hit_sym a b = ground (arith, eqb_sym a b)

hit-le-writers :
    (fd : ℤ) (channels : List Channel) (i : ℕ) (u : Channel)
    → i < length channels
    → hit (get_or channels i u).wfd fd ≤ writers fd channels
hit-le-writers fd [] i u h = absurd (omega arith)
hit-le-writers fd (c ∷ channels) zero u h = omega arith
hit-le-writers fd (c ∷ channels) (suc i) u h =
    omega (arith, hit-le-writers fd channels i u (omega arith))

writers-one :
    (channels : List Channel) (i : ℕ) (u : Channel)
    → Apart channels
    → i < length channels
    → writers (get_or channels i u).wfd channels ≡ 1
writers-one [] i u a h = absurd (omega arith)
writers-one (c ∷ channels) zero u a h = ground (arith, eqb_self c.wfd, a.0)
writers-one (c ∷ channels) (suc i) u a h = omega (
  arith,
  writers-one channels i u a.1 (omega arith),
  hit-le-writers c.wfd channels i u (omega arith),
  hit_sym c.wfd (get_or channels i u).wfd,
  a.0,
)

-- How many tasks these commands are, for all channels.
abbrev ordered : List Command → List Channel → ℕ
ordered cs = total (λ (d : Channel). length (tasks_of (written_to d.wfd cs)))

ordered-cons :
    (c : Command) (cs : List Command) (channels : List Channel)
    → c.taskcommand < 3
    → ordered (c ∷ cs) channels ≡ writers c.channel.wfd channels + ordered cs channels
ordered-cons c cs [] h = refl
ordered-cons c cs (d ∷ channels) h = ground (
  arith,
  ordered-cons c cs channels h,
  run_task-length c.taskcommand (tasks_of (written_to d.wfd cs)) h,
)

ordered-none : (channels : List Channel) → ordered [] channels ≡ 0
ordered-none [] = refl
ordered-none (d ∷ channels) = omega (arith, ordered-none channels)

ordered-ctrl_process :
    (rand : ℕ → ℕ) (unmade : Channel) (channels : List Channel) (times k next : ℕ)
    → Apart channels
    → next < length channels
    → ordered (ctrl_process rand unmade channels times k next) channels ≡ times
unfolding ctrl_process next_channel select_task
ordered-ctrl_process rand unmade channels zero k next a h = ordered-none channels
ordered-ctrl_process rand unmade channels (suc times) k next a h =
    let m = suc next % length channels in
    let cs = ctrl_process rand unmade channels times (suc k) m in
    omega (
      arith,
      ordered-cons (record { channel = get_or channels next unmade; taskcommand = rand k % 3 }) cs
          channels (mod-lt (rand k) (omega arith)),
      writers-one channels next unmade a h,
      ordered-ctrl_process rand unmade channels times (suc k) m a (mod-lt (suc next) (omega arith)),
    )

-- How many tasks a child ran, if it has left its loop.
abbrev pub ran : Option (List Task) → ℕ
ran none = 0
ran (some ts) = length ts

total-ran :
    (reads : ℤ → ℕ → Read) (fuel : ℕ) (cs : List Command) (channels : List Channel)
    → ((fd : ℤ) → Answers (reads fd) fuel 0 (written_to fd cs))
    → total (λ (d : Channel). ran (work2 (reads d.wfd) fuel 0)) channels ≡ ordered cs channels
total-ran reads fuel cs [] a = refl
total-ran reads fuel cs (d ∷ channels) a =
    omega
      (arith, ap ran (work2-Answers (reads d.wfd) (a d.wfd)), total-ran reads fuel cs channels a)

-- When the channels write to different descriptors, and the reads of every child give the commands
-- that were written to its pipe, in order, and then its end (reads may fail in between, as long as
-- the fuel is enough), then every child runs the tasks of these commands in order and leaves its
-- loop, and together the children run as many tasks as commands were sent.
pub ctrl_process-work2 :
    (rand : ℕ → ℕ) (unmade : Channel) (channels : List Channel) (times fuel : ℕ)
    (reads : ℤ → ℕ → Read)
    → 0 < length channels
    → Apart channels
    → ((fd : ℤ)
        → Answers (reads fd) fuel 0 (written_to fd (ctrl_process rand unmade channels times 0 0)))
    → ((fd : ℤ)
        → work2 (reads fd) fuel 0
          ≡ some (tasks_of (written_to fd (ctrl_process rand unmade channels times 0 0))))
      × (total (λ (d : Channel). ran (work2 (reads d.wfd) fuel 0)) channels ≡ times)
ctrl_process-work2 rand unmade channels times fuel reads h a answers = (
  λ fd. work2-Answers (reads fd) (answers fd),
  total-ran reads fuel (ctrl_process rand unmade channels times 0 0) channels answers
      ∙ ordered-ctrl_process rand unmade channels times 0 0 a h,
)
