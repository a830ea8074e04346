-- ===== src/Socket.antt =====
-- IO/1.epollserver/Socket.hpp (the same file stands in IO/SelectServer and IO/Pollserver):
-- `TcpSocket`, the socket of the event servers. A call that ends the process is `exited` with its
-- status. `LOG` lines are left out: they change no state.
pub mod Build
pub mod CString
mod Tests
use linux_cpp.Common.{
  ℕ, zero, suc, List, [], ◌∷◌, ◌++◌, Bool, true, false, if◌then◌else◌, ℤ, pos, negsuc, ltz, ◌==◌,
  Bytes, take, Option, none, some,
}
use linux_cpp.Os.{
  Os, Trace, Event, socketed, reused, bound, listened, connected, accepted, received, sent, closed,
  SockAddr, Accepted,
}

-- What a method hands back: a value and the calls made so far, or the end of the process.
pub data Outcome {ℓ} (A : Type ℓ) : Type ℓ where
  done : A → Trace → Outcome A
  exited : (status : ℕ) → Trace → Outcome A

abbrev pub M : Type 0 → Type 0
M A = Trace → Outcome A

infixl 5 ◌>>=◌ ◌>>◌
abbrev pub ◌>>=◌ : {A B : Type 0} → M A → (A → M B) → M B
◌>>=◌ m f t = elim (m t) [ done a t' ↦ f a t' | exited status t' ↦ exited status t' ]

abbrev pub ◌>>◌ : {A B : Type 0} → M A → M B → M B
m >> k = m >>= λ _. k

abbrev pub return : {A : Type 0} → A → M A
return a t = done a t

abbrev pub exit : {A : Type 0} → ℕ → M A
exit status t = exited status t

-- the unnamed enum
abbrev pub socket_error : ℕ
socket_error = 1

abbrev pub bind_error : ℕ
bind_error = 2

abbrev pub listen_err : ℕ
listen_err = 3

abbrev pub gblcklog : ℕ
gblcklog = 8

pub record TcpSocket : Type 0 where
  pub sockfd : ℤ

-- A C string: what stands before the first NUL.
unfoldable pub c_string : Bytes → Bytes
c_string [] = []
c_string (b ∷ bs) = if b == 0 then [] else (b ∷ c_string bs)

-- The first `n` bytes of the buffer.
abbrev pub filled : ℤ → Bytes → Bytes
filled (pos n) buffer = take n buffer
filled (negsuc n) buffer = []

module _ (os : Os) where
  pub create_socket_or_die : M TcpSocket
  create_socket_or_die t =
      let fd = os.socket t in
      if ltz fd (pos 0)
      then exited socket_error (socketed fd ∷ t)
      else done (record { sockfd = fd }) (socketed fd ∷ t)

  pub re_use_addr : TcpSocket → M (Unit {0})
  re_use_addr sock t = done tt (reused sock.sockfd ∷ t)

  pub create_bind_or_die : ℕ → TcpSocket → M (Unit {0})
  create_bind_or_die port sock t =
      let ret = os.bind t sock.sockfd port in
      if ltz ret (pos 0)
      then exited bind_error (bound sock.sockfd port ret ∷ t)
      else done tt (bound sock.sockfd port ret ∷ t)

  -- The parameter `backlog` is not read: `listen` is given `gblcklog`.
  pub create_listen_or_die : ℕ → TcpSocket → M (Unit {0})
  create_listen_or_die backlog sock t =
      let ret = os.listen t sock.sockfd gblcklog in
      if ltz ret (pos 0)
      then exited listen_err (listened sock.sockfd gblcklog ret ∷ t)
      else done tt (listened sock.sockfd gblcklog ret ∷ t)

  unfoldable pub build_listen_socket : ℕ → M TcpSocket
  unfolding create_socket_or_die re_use_addr create_bind_or_die create_listen_or_die
  build_listen_socket port = do
    sock ← create_socket_or_die
    re_use_addr sock
    create_bind_or_die port sock
    create_listen_or_die gblcklog sock
    return sock

  -- `connect`: false when the call fails.
  unfoldable pub conntecor : Bytes → ℕ → TcpSocket → M Bool
  conntecor peerip peerport sock t =
      let server : SockAddr = record { sin_addr = os.inet_pton peerip; sin_port = peerport } in
      let n = os.connect t sock.sockfd server in
      if ltz n (pos 0)
      then done false (connected sock.sockfd server n ∷ t)
      else done true (connected sock.sockfd server n ∷ t)

  pub build_client_socket : Bytes → ℕ → M (TcpSocket × Bool)
  unfolding create_socket_or_die conntecor
  build_client_socket peerip peerport = do
    sock ← create_socket_or_die
    linked ← conntecor peerip peerport sock
    return (sock, linked)

  -- The new descriptor or -1, and the peer's address where there is one.
  unfoldable pub accepter : TcpSocket → Trace → ℤ × Option SockAddr × Trace
  accepter sock t =
      let answer = os.accept t sock.sockfd in
      if ltz answer.fd (pos 0)
      then (negsuc 0, none, accepted sock.sockfd answer.fd ∷ t)
      else (answer.fd, some answer.client, accepted sock.sockfd answer.fd ∷ t)

  -- `*out += inbuffer` appends the text up to the first NUL of the `n` bytes received.
  pub recv : TcpSocket → Bytes → Trace → ℤ × Bytes × Trace
  unfolding c_string
  recv sock out t =
      let answer = os.recv t sock.sockfd 4095 in
      if ltz (pos 0) answer.n
      then (
        answer.n,
        out ++ c_string (filled answer.n answer.buffer),
        received sock.sockfd answer.n ∷ t,
      )
      else (answer.n, out, received sock.sockfd answer.n ∷ t)

  pub send : TcpSocket → Bytes → Trace → ℤ × Trace
  send sock text t = (os.send t sock.sockfd text, sent sock.sockfd text ∷ t)

-- A descriptor 0 is not closed: the test is `> 0`.
unfoldable pub close : TcpSocket → Trace → Trace
close sock t = if ltz (pos 0) sock.sockfd then (closed sock.sockfd ∷ t) else t
