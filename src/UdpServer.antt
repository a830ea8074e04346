-- ===== src/UdpServer.antt =====
-- Socket/2. dict_server/UdpServer.hpp: the UDP server, which gives each datagram to a function and
-- sends back its result, and the reply of its copy in Socket/1. udp_echo_server. The console output
-- of a datagram is left out.
pub mod Replies
pub mod Echo
mod Tests
use linux_cpp.Common.{
  ℕ, zero, suc, List, [], ◌∷◌, ◌++◌, Bool, true, false, if◌then◌else◌, ℤ, pos, negsuc, ltz, Bytes,
  codes,
}
use linux_cpp.Os.{Os, Trace, SockAddr, socketed, bound, received, sent_to, closed}
use linux_cpp.Socket.{M, done, exited, c_string, filled, socket_error, bind_error}

abbrev pub gsockfd : ℤ
gsockfd = negsuc 0

pub record UdpServer : Type 0 where
  pub sockfd : ℤ
  pub localport : ℕ
  pub isrunning : Bool

pub construct : ℕ → UdpServer
construct localport = record { sockfd = gsockfd; localport = localport; isrunning = false }

-- `InitServer`: socket and bind, or the end of the process.
pub init_server : Os → UdpServer → M UdpServer
init_server os s t =
    let fd = os.socket t in
    let t₁ : Trace = socketed fd ∷ t in
    if ltz fd (pos 0)
    then exited socket_error t₁
    else (let n = os.bind t₁ fd s.localport in
        if ltz n (pos 0)
        then exited bind_error (bound fd s.localport n ∷ t₁)
        else done (record s { sockfd = fd }) (bound fd s.localport n ∷ t₁))

-- The buffer has 1024 bytes, of which recvfrom may fill all but one.
abbrev pub room : ℕ
room = 1023

-- One turn of the loop of `Start`: the datagram's text up to its first NUL
-- is given to `func`, and the result goes back to the sender.
pub round : Os → (Bytes → Bytes) → UdpServer → Trace → Trace
unfolding c_string
round os func s t =
    let answer = os.recvfrom t s.sockfd room in
    let t₁ : Trace = received s.sockfd answer.n ∷ t in
    if ltz (pos 0) answer.n
    then sent_to s.sockfd (func (c_string (filled answer.n answer.buffer))) answer.peer ∷ t₁
    else t₁

-- `Start`, for a number of turns.
pub start : Os → (Bytes → Bytes) → ℕ → UdpServer → Trace → UdpServer × Trace
start os func zero s t = (record s { isrunning = true }, t)
start os func (suc rounds) s t = start os func rounds s (round os func s t)

-- The reply of the echo server.
unfoldable pub echo_string : Bytes → Bytes
echo_string inbuffer = codes "[udp_server echo] #" ++ inbuffer

-- `~UdpServer`
pub destroy : UdpServer → Trace → Trace
destroy s t = if ltz gsockfd s.sockfd then (closed s.sockfd ∷ t) else t
