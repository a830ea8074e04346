-- ===== src/UdpClient.antt =====
-- Socket/1. udp_echo_server/UdpClientMain.cc, the client of the echo server (the dictionary's is
-- alike): the loop that sends each line and prints what comes back. What getline, sendto and
-- recvfrom answer in a turn are arguments; an empty line is what getline leaves at the end of the
-- input.
pub mod Conversation
mod Tests
use linux_cpp.Common.{
  ℕ, zero, suc, List, [], ◌∷◌, if◌then◌else◌, ℤ, pos, ltz, Bytes, Option, none, some, map_option,
}
use linux_cpp.Os.{Received}
use linux_cpp.Socket.{c_string, filled}

pub data Ending : Type 0 where
  recvfrom_error sendto_error : Ending

-- The lines sent and the texts printed, in order.
pub record Talk : Type 0 where
  pub lines : List Bytes
  pub printed : List Bytes
  pub ending : Ending

-- A turn in which the datagram was answered, and what comes of the turns after it.
pub heard : Bytes → Received → Option Talk → Option Talk
heard line answer rest =
    if ltz (pos 0) answer.n
    then map_option
        (λ (talk : Talk). record talk {
          lines = line ∷ talk.lines;
          printed = c_string (filled answer.n answer.buffer) ∷ talk.printed;
        })
        rest
    else some (record { lines = line ∷ []; printed = []; ending = recvfrom_error })

module _ (getline : ℕ → Bytes) (sendto : ℕ → Bytes → ℤ) (recvfrom : ℕ → Bytes → Received) where
  -- The loop from its `k`th turn on, with `fuel` for its turns.
  pub talk : (fuel k : ℕ) → Option Talk
  unfolding heard
  talk zero k = none
  talk (suc fuel) k =
      let line = getline k in
      let rest = talk fuel (suc k) in
      if ltz (pos 0) (sendto k line)
      then heard line (recvfrom k line) rest
      else some (record { lines = line ∷ []; printed = []; ending = sendto_error })
