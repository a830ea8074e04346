-- ===== src/NamedPipe.antt =====
-- 3.fifo: the named pipe of namedPipe.hpp, the server that prints what it reads and the client that
-- writes lines. The answers of read are an argument, by the number of the call. A write is taken to
-- write all its bytes.
pub mod Stream
mod Tests
use linux_cpp.Common.{
  ℕ, suc, zero, ◌+◌, List, [], ◌∷◌, ◌++◌, Bool, true, false, ◌||◌, if◌then◌else◌, ℤ, pos, negsuc,
  eqb, ltz, Bytes, Option, none, some, map_option,
}
use linux_cpp.Os.{Received}
use linux_cpp.Socket.{c_string, filled}

abbrev pub default_fd : ℤ
default_fd = negsuc 0

abbrev pub creater : ℤ
creater = pos 1

abbrev pub user : ℤ
user = pos 2

abbrev pub base_size : ℤ
base_size = pos 4096

pub data Mode : Type 0 where
  read_mode write_mode : Mode

-- The calls made, newest first.
pub data Event : Type 0 where
  made : (ret : ℤ) → Event
  opened : Mode → (fd : ℤ) → Event
  closed : (fd : ℤ) → Event
  unlinked : Event

pub record NamePiped : Type 0 where
  pub id : ℤ
  pub fd : ℤ
  pub trace : List Event

-- `mkfifo` is what it answers; a failure is only reported.
pub construct : (mkfifo : ℤ) → (who : ℤ) → NamePiped
construct mkfifo who = record {
  id = who;
  fd = default_fd;
  trace = if eqb who creater then (made mkfifo ∷ []) else [];
}

-- `opening` is what open answers.
pub open_named_pipe : (opening : ℤ) → Mode → NamePiped → Bool × NamePiped
open_named_pipe opening mode p = (
  if ltz opening (pos 0) then false else true,
  record p { fd = opening; trace = opened mode opening ∷ p.trace },
)

pub destruct : NamePiped → List Event
destruct p =
    let trace = if eqb p.id creater then (unlinked ∷ p.trace) else p.trace in
    if eqb p.fd default_fd then trace else (closed p.fd ∷ trace)

-- What `ReadNamedPipe` gives: its result, the text, and whether it wrote past its buffer.
pub record Read : Type 0 where
  pub n : ℤ
  pub out : Bytes
  pub fault : Bool

unfoldable pub read_named_pipe : Received → Bytes → Read
read_named_pipe answer out =
    if ltz (pos 0) answer.n
    then record {
      n = answer.n;
      out = c_string (filled answer.n answer.buffer);
      fault = if ltz answer.n base_size then false else true;
    }
    else record { n = answer.n; out = out; fault = false }

pub data Ending : Type 0 where
  client_quit read_error not_opened : Ending

-- What the server has printed, how its loop ended, and whether a read wrote past its buffer.
pub record Served : Type 0 where
  pub said : List Bytes
  pub ending : Ending
  pub fault : Bool

pub heard : Read → Served → Served
heard r s = record { said = r.out ∷ s.said; ending = s.ending; fault = r.fault || s.fault }

-- One turn of the server's loop, and what comes of the turns after it.
pub serve_once : Read → Option Served → Option Served
unfolding heard
serve_once r rest =
    if ltz (pos 0) r.n
    then map_option (heard r) rest
    else some (record {
      said = [];
      ending = if eqb r.n (pos 0) then client_quit else read_error;
      fault = false;
    })

-- The loop of the server from its `k`th read on, with `fuel` for its reads.
pub serve : (ℕ → Received) → (fuel k : ℕ) → Option Served
unfolding read_named_pipe serve_once
serve read zero k = none
serve read (suc fuel) k =
    let rest = serve read fuel (suc k) in serve_once (read_named_pipe (read k) []) rest

-- The server's main: what it printed, when its loop ends, and its calls.
pub server_main : (mkfifo opening : ℤ) → (ℕ → Received) → ℕ → Option Served × List Event
unfolding construct open_named_pipe serve destruct
server_main mkfifo opening read fuel =
    let (opens, p) = open_named_pipe opening read_mode (construct mkfifo creater) in
    (
      if opens
          then serve read fuel 0
          else some (record { said = []; ending = not_opened; fault = false }),
      destruct p,
    )

-- What the client writes for these lines: `WriteNamedPipe` sends each with no mark at its end.
pub client_writes : List Bytes → Bytes
client_writes [] = []
client_writes (message ∷ messages) = message ++ client_writes messages
