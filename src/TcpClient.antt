-- ===== src/TcpClient.antt =====
-- Socket/5.command_server/TcpClientMain.cc, the client of the command server, after its arguments are
-- read. What getline gives in a turn, and what socket, connect and read answer, are arguments; a
-- read with no answer waits for ever. What write answers is not looked at. getline leaves an empty
-- line at the end of the input, which is not tested.
pub mod Conversation
mod Tests
use linux_cpp.Common.{
  ℕ, zero, suc, List, [], ◌∷◌, if◌then◌else◌, Bool, true, false, ◌||◌, ℤ, pos, ltz, Bytes, Option,
  none, some, map_option,
}
use linux_cpp.Os.{Received}
use linux_cpp.Socket.{c_string, filled}

-- `sizeof(echo_buffer)`
abbrev pub buffer_size : ℤ
buffer_size = pos 1024

pub data Ending : Type 0 where
  left waiting : Ending

-- The lines written and the texts printed, in order, and whether the zero after a text was written
-- past the buffer.
pub record Talk : Type 0 where
  pub lines : List Bytes
  pub printed : List Bytes
  pub overrun : Bool
  pub ending : Ending

-- A turn whose read has answered, and what comes of the turns after it.
pub heard : Bytes → Received → Option Talk → Option Talk
unfolding c_string
heard line answer rest =
    if ltz (pos 0) answer.n
    then map_option
        (λ (talk : Talk). record talk {
          lines = line ∷ talk.lines;
          printed = c_string (filled answer.n answer.buffer) ∷ talk.printed;
          overrun = (if ltz answer.n buffer_size then false else true) || talk.overrun;
        })
        rest
    else some (record { lines = line ∷ []; printed = []; overrun = false; ending = left })

-- What `main` comes to: it exits with a status, or talks.
pub data Outcome : Type 0 where
  exited : (status : ℕ) → Outcome
  talked : Option Talk → Outcome

module _ (getline : ℕ → Bytes) (read : ℕ → Bytes → Option Received) where
  -- The loop from its `k`th turn on, with `fuel` for its turns.
  pub talk : (fuel k : ℕ) → Option Talk
  unfolding heard
  talk zero k = none
  talk (suc fuel) k =
      let line = getline k in
      let rest = talk fuel (suc k) in
      elim (read k line) [
        | some answer ↦ heard line answer rest
        | none ↦
            some (record { lines = line ∷ []; printed = []; overrun = false; ending = waiting })
      ]

  pub main : (socket connect : ℤ) → (fuel : ℕ) → Outcome
  unfolding talk
  main socket connect fuel =
      if ltz socket (pos 0)
      then exited 1
      else if ltz connect (pos 0)
      then exited 2
      else talked (talk fuel 0)
