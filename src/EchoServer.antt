-- ===== src/EchoServer.antt =====
-- Socket/4. tcp_echo_server/TcpServer.hpp: the echo server that serves one client at a time.
-- `InitServer` keeps the new socket in a local variable of its own, and goes on with the member
-- `_sockfd`. `_listensockfd` is set by nothing: what it holds is an argument of the constructor.
pub mod Service
mod Tests
use linux_cpp.Common.{
  ℕ, zero, suc, List, [], ◌∷◌, Bool, true, false, if◌then◌else◌, ℤ, pos, negsuc, ltz, Bytes, codes,
  Option, none, some,
}
use linux_cpp.Os.{Os, Trace, socketed, bound, listened, accepted, received, sent, closed}
use linux_cpp.Socket.{M, done, exited, socket_error, bind_error, listen_err, gblcklog}

abbrev pub gsock : ℤ
gsock = negsuc 0

pub record TcpServer : Type 0 where
  pub port : ℕ
  pub sockfd : ℤ
  pub listensockfd : ℤ
  pub isrunning : Bool

unfoldable pub construct : ℕ → ℤ → TcpServer
construct port garbage = record {
  port = port;
  sockfd = gsock;
  listensockfd = garbage;
  isrunning = false;
}

unfoldable pub init_server : Os → TcpServer → M TcpServer
init_server os s t =
    let fd = os.socket t in
    let t₁ : Trace = socketed fd ∷ t in
    let b = os.bind t₁ s.sockfd s.port in
    let t₂ : Trace = bound s.sockfd s.port b ∷ t₁ in
    let l = os.listen t₂ s.sockfd gblcklog in
    if ltz fd (pos 0)
    then exited socket_error t₁
    else if ltz b (pos 0)
    then exited bind_error t₂
    else if ltz l (pos 0)
    then exited listen_err (listened s.sockfd gblcklog l ∷ t₂)
    else done s (listened s.sockfd gblcklog l ∷ t₂)

abbrev pub echo_string : Bytes
echo_string = codes "[server echo]#"

-- `Service`, for at most `fuel` turns of its loop; `none` when the client still sends after them.
unfoldable pub service : ℕ → Os → ℤ → Trace → Option Trace
service zero os sockfd t = none
service (suc fuel) os sockfd t =
    let n = (os.recv t sockfd 1023).n in
    let t₁ : Trace = received sockfd n ∷ t in
    let rest = service fuel os sockfd (sent sockfd echo_string ∷ t₁) in
    if ltz (pos 0) n then rest else some (closed sockfd ∷ t₁)

-- One turn of `Loop`, with `fuel` for the service.
unfoldable pub loop_once : ℕ → Os → TcpServer → Trace → Option Trace
unfolding service
loop_once fuel os s t =
    let answer = os.accept t s.listensockfd in
    let t₁ : Trace = accepted s.listensockfd answer.fd ∷ t in
    let served = service fuel os answer.fd t₁ in if ltz answer.fd (pos 0) then some t₁ else served

-- A number of turns.
unfoldable pub loop : ℕ → ℕ → Os → TcpServer → Trace → Option Trace
unfolding loop_once
loop fuel zero os s t = some t
loop fuel (suc rounds) os s t = elim (loop_once fuel os s t) [
  | none ↦ none
  | some t' ↦ loop fuel rounds os s t'
]
