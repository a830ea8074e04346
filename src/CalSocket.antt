-- ===== src/CalSocket.antt =====
-- Socket/6.cal_server/Socket.hpp, a variant of `TcpSocket` that does not compile yet: its
-- `BuildListenSocket` hands no port to `CreateBindOrDie`, and is read as handing on one of its
-- own. `Conntecor` gives no value back. A shared pointer to a socket is the socket, the null
-- pointer is `none`.
pub mod Agree
use linux_cpp.Common.{ℕ, ◌∷◌, if◌then◌else◌, ℤ, pos, ltz, Bytes, Option, none, some}
use linux_cpp.Os.{Os, Trace, SockAddr, socketed, bound, listened, connected, accepted}
use linux_cpp.Socket.{
  TcpSocket, M, done, exited, ◌>>=◌, ◌>>◌, return, socket_error, bind_error, listen_err, gblcklog,
}

module _ (os : Os) where
  pub create_socket_or_die : M TcpSocket
  create_socket_or_die t =
      let fd = os.socket t in
      if ltz fd (pos 0)
      then exited socket_error (socketed fd ∷ t)
      else done (record { sockfd = fd }) (socketed fd ∷ t)

  pub create_bind_or_die : ℕ → TcpSocket → M (Unit {0})
  create_bind_or_die port sock t =
      let ret = os.bind t sock.sockfd port in
      if ltz ret (pos 0)
      then exited bind_error (bound sock.sockfd port ret ∷ t)
      else done tt (bound sock.sockfd port ret ∷ t)

  -- The parameter `backlog` is not read.
  pub create_listen_or_die : ℕ → TcpSocket → M (Unit {0})
  create_listen_or_die backlog sock t =
      let ret = os.listen t sock.sockfd gblcklog in
      if ltz ret (pos 0)
      then exited listen_err (listened sock.sockfd gblcklog ret ∷ t)
      else done tt (listened sock.sockfd gblcklog ret ∷ t)

  pub build_listen_socket : ℕ → M TcpSocket
  unfolding create_socket_or_die create_bind_or_die create_listen_or_die
  build_listen_socket port = do
    sock ← create_socket_or_die
    create_bind_or_die port sock
    create_listen_or_die gblcklog sock
    return sock

  -- The new socket and the peer's address, or none.
  pub accepter : TcpSocket → Trace → Option (TcpSocket × SockAddr) × Trace
  accepter sock t =
      let answer = os.accept t sock.sockfd in
      if ltz answer.fd (pos 0)
      then (none, accepted sock.sockfd answer.fd ∷ t)
      else (some (record { sockfd = answer.fd }, answer.client), accepted sock.sockfd answer.fd ∷ t)

  -- A failing connect ends the process.
  pub conntecor : Bytes → ℕ → TcpSocket → M (Unit {0})
  conntecor peerip peerport sock t =
      let server : SockAddr = record { sin_addr = os.inet_pton peerip; sin_port = peerport } in
      let n = os.connect t sock.sockfd server in
      if ltz n (pos 0)
      then exited 2 (connected sock.sockfd server n ∷ t)
      else done tt (connected sock.sockfd server n ∷ t)
