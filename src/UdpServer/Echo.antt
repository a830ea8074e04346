-- ===== src/UdpServer/Echo.antt =====
-- The loop of Socket/1. udp_echo_server/UdpServer.hpp, which is that of UdpServer.antt with the
-- reply of the echo server.
use linux_cpp.Common.{ℕ, ◌+◌, ◌≡◌, refl, ◌++◌, codes, Bytes}
use linux_cpp.Os.{Os, Trace, Extends}
use linux_cpp.UdpServer.{UdpServer, start, echo_string}
use linux_cpp.UdpServer.Replies.{Serves, start-Serves, datagrams, replies, start_balanced}

-- `Start`, for a number of turns.
pub start_echo : Os → ℕ → UdpServer → Trace → UdpServer × Trace
start_echo os rounds s t = start os echo_string rounds s t

-- The text of a reply.
abbrev pub Echo : Bytes → Type 0
Echo text = (inbuffer : Bytes) × (text ≡ codes "[udp_server echo] #" ++ inbuffer)

echo_string-Echo : (text : Bytes) → Echo (echo_string text)
unfolding echo_string
echo_string-Echo text = (text, refl)

-- For every operating system and number of turns, the echo server makes no call but reads and
-- replies, each reply begins with its prefix, and as many go out as datagrams came in that were not
-- empty.
pub start_echo-Serves :
    (os : Os) (rounds : ℕ) (s : UdpServer) (t : Trace)
    → let t' = (start_echo os rounds s t).1 in
      Extends (Serves Echo) t t' × (replies t' + datagrams t ≡ replies t + datagrams t')
unfolding start_echo
start_echo-Serves os rounds s t = (
  start-Serves os echo_string Echo echo_string-Echo rounds s t,
  start_balanced os echo_string rounds s t,
)
