-- ===== src/NonBlock.antt =====
-- IO/TestNonBlock: Comm.hpp and the loop of Main.cc, which echoes a descriptor that does not block.
-- The answers of fcntl and read are arguments.
pub mod Echo
mod Tests
use linux_cpp.Common.{
  ℕ, zero, suc, ◌+◌, ◌/◌, ◌%◌, ◌*◌, List, [], ◌∷◌, ◌++◌, Bool, true, false, if◌then◌else◌, ℤ, pos,
  negsuc, eqb, ltz, ◌==◌, Bytes, Option, none, some, map_option,
}
use linux_cpp.Socket.{c_string, filled}

-- O_NONBLOCK, a single bit
abbrev pub nonblock : ℕ
nonblock = 2048

-- `fl | O_NONBLOCK`
pub with_nonblock : ℕ → ℕ
with_nonblock fl = if fl / nonblock % 2 == 1 then fl else fl + nonblock

-- `got` is what fcntl answers for F_GETFL: the flags that are set, if any are.
pub set_non_block : (got : ℤ) → Option ℕ
unfolding with_nonblock
set_non_block (negsuc n) = none
set_non_block (pos fl) = some (with_nonblock fl)

pub data Errno : Type 0 where
  ewouldblock eintr : Errno
  other : (code : ℕ) → Errno

pub record Read : Type 0 where
  pub n : ℤ
  pub buffer : Bytes
  pub errno : Errno

pub data Ending : Type 0 where
  read_done read_failed : Ending

-- What has been echoed, how often it slept, and how the loop ended.
pub record Echoed : Type 0 where
  pub texts : List Bytes
  pub sleeps : ℕ
  pub ending : Ending

-- What a turn adds to what comes of the turns after it; `errno` is read only when read has failed.
pub failed : Errno → Option Echoed → Option Echoed
failed ewouldblock rest = map_option (λ (e : Echoed). record e { sleeps = suc e.sleeps }) rest
failed eintr rest = rest
failed (other code) rest = some (record { texts = []; sleeps = 0; ending = read_failed })

pub echo_once : Read → Option Echoed → Option Echoed
unfolding failed
echo_once r rest =
    if ltz (pos 0) r.n
    then map_option (λ (e : Echoed). record e { texts = c_string (filled r.n r.buffer) ∷ e.texts })
        rest
    else if eqb r.n (pos 0)
    then some (record { texts = []; sleeps = 0; ending = read_done })
    else failed r.errno rest

-- The loop from its `k`th read on, with `fuel` for its reads.
pub echo : (ℕ → Read) → (fuel k : ℕ) → Option Echoed
unfolding echo_once
echo read zero k = none
echo read (suc fuel) k = let rest = echo read fuel (suc k) in echo_once (read k) rest
