-- ===== src/TestPipe.antt =====
-- 1.testPipe/testpipe.cc: a child that writes messages to a pipe without end, and its father, who
-- reads once, closes his end and waits for the child. A step is one system call on what the two
-- share, from the moment that fork has given each both ends. A write finds room for the whole
-- message or waits, and ends the process with SIGPIPE when no process holds the reading end; a read
-- takes any of the bytes that are there, and none when the pipe is empty and no process holds the
-- writing end.
pub mod Stream
mod Tests
use linux_cpp.Common.{
  ℕ, ◌+◌, ◌-◌, ◌*◌, ◌/◌, ◌%◌, ◌<◌, ◌≤◌, ◌≡◌, Bool, true, false, ◌||◌, List, [], ◌∷◌, ◌++◌, Bytes,
  codes, to_string, pos, length, take, drop,
}
use linux_cpp.Socket.{c_string, filled}

-- `sizeof(inbuffer) - 1`
abbrev pub room : ℕ
room = 1023

-- `getOtherMessage`, when its static counter is `cnt`.
pub get_other_message : (pid cnt : ℕ) → Bytes
get_other_message pid cnt =
    ((codes "messageid: " ++ to_string cnt) ++ codes " my pid is:  ") ++ to_string pid

-- What the child writes in a turn of its loop.
pub info : (pid cnt : ℕ) → Bytes
unfolding get_other_message
info pid cnt = codes "Father,I am your son process!" ++ get_other_message pid cnt

pub data Child : Type 0 where
  starting writing : Child
  killed : (signal : ℕ) → Child

-- What the father is about to do; at the end, the signal and the code that he prints.
pub data Father : Type 0 where
  starting reading closing waiting : Father
  reported : (signal code : ℕ) → Father

-- `sent` is all that was written to the pipe; the last four fields are the ends that are held.
pub record State : Type 0 where
  pub pipe : Bytes
  pub sent : Bytes
  pub cnt : ℕ
  pub child : Child
  pub father : Father
  pub printed : List Bytes
  pub child_rfd : Bool
  pub child_wfd : Bool
  pub father_rfd : Bool
  pub father_wfd : Bool

abbrev pub start : State
start = record {
  pipe = [];
  sent = [];
  cnt = 0;
  child = Child.starting;
  father = Father.starting;
  printed = [];
  child_rfd = true;
  child_wfd = true;
  father_rfd = true;
  father_wfd = true;
}

abbrev pub reader_open : State → Bool
reader_open s = s.child_rfd || s.father_rfd

abbrev pub writer_open : State → Bool
writer_open s = s.child_wfd || s.father_wfd

abbrev pub sigpipe : ℕ
sigpipe = 13

-- The status of a process that a signal ended is the signal.
unfoldable pub report : (status : ℕ) → Father
report status = reported (status % 128) (status / 256 % 128)

pub write_message : (pid : ℕ) → State → State
unfolding info
write_message pid s = record s {
  pipe = s.pipe ++ info pid s.cnt;
  sent = s.sent ++ info pid s.cnt;
  cnt = s.cnt + 1;
}

-- A read that gives `n` bytes.
pub father_process_read : ℕ → State → State
unfolding c_string
father_process_read n s = record s {
  pipe = drop n s.pipe;
  printed = c_string (filled (pos n) s.pipe) ∷ s.printed;
  father = closing;
}

module _ (pid capacity : ℕ) where
  pub data Step (s : State) : State → Type 0 where
    child_closes :
        s.child ≡ Child.starting → Step s (record s { child_rfd = false; child = writing })
    writes :
        s.child ≡ writing
        → reader_open s ≡ true
        → length s.pipe + length (info pid s.cnt) ≤ capacity
        → Step s (write_message pid s)
    breaks :
        s.child ≡ writing
        → reader_open s ≡ false
        → Step s (record s {
          cnt = s.cnt + 1;
          child = killed sigpipe;
          child_rfd = false;
          child_wfd = false;
        })
    father_closes :
        s.father ≡ Father.starting → Step s (record s { father_wfd = false; father = reading })
    reads :
        (n : ℕ)
        → s.father ≡ reading
        → 0 < n
        → n ≤ length s.pipe
        → n ≤ room
        → Step s (father_process_read n s)
    fails : s.father ≡ reading → Step s (record s { father = closing })
    ends :
        s.father ≡ reading
        → s.pipe ≡ []
        → writer_open s ≡ false
        → Step s (record s { father = closing })
    closes : s.father ≡ closing → Step s (record s { father_rfd = false; father = waiting })
    waits :
        {signal : ℕ}
        → s.father ≡ waiting
        → s.child ≡ killed signal
        → Step s (record s { father = report signal })

  pub data Reach : State → Type 0 where
    begins : Reach start
    later : {s s' : State} → Reach s → Step s s' → Reach s'
