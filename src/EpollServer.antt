-- ===== src/EpollServer.antt =====
-- IO/1.epollserver/EpollServer.hpp: `EpollServer`. The kernel keeps the set of watched descriptors:
-- it is read off the calls of epoll_ctl in `trace`, the system calls made so far, newest first.
-- `LOG` lines and printed messages are left out.
pub mod Descriptors
pub mod Interest
mod Tests
use Prim.Native.Nat.{bit_and}
use linux_cpp.Common.{
  ℕ, zero, suc, List, [], ◌∷◌, ◌++◌, Bool, true, false, if◌then◌else◌, ℤ, pos, negsuc, not, eqb,
  ltz, ◌==◌, Bytes, codes, to_string, length,
}
use linux_cpp.Os.{
  Os, Trace, EpollEvent, received, sent, closed, waited, controlled, ctl_add, ctl_del,
  epoll_created,
}
use linux_cpp.Socket.{
  TcpSocket, M, Outcome, done, exited, ◌>>=◌, build_listen_socket, accepter as socket_accepter,
  close as socket_close,
}

abbrev pub max_events : ℕ
max_events = 128

-- epoll_create's argument `size`
abbrev pub epoll_size : ℕ
epoll_size = 128

abbrev pub epollin : ℕ
epollin = 1

abbrev pub epollout : ℕ
epollout = 4

-- `revs` is filled by each epoll_wait.
pub record EpollServer : Type 0 where
  pub port : ℕ
  pub listensock : TcpSocket
  pub epfd : ℤ
  pub revs : List EpollEvent
  pub trace : Trace

-- The constructor. `garbage` stands for what `revs` holds before the first wait.
pub construct : Os → ℕ → List EpollEvent → M EpollServer
construct os port garbage t =
    (do
      sock ← build_listen_socket os port
      λ t'.
          let epfd = os.epoll_create t' epoll_size in
          let t'' : Trace = epoll_created epfd ∷ t' in
          if ltz epfd (pos 0)
          then exited 1 t''
          else done
              (record { port = port; listensock = sock; epfd = epfd; revs = garbage; trace = t'' })
              t'')
      t

-- `InitServer` ends the process with status 2 when the listening socket cannot be watched.
pub init_server : Os → EpollServer → Outcome EpollServer
init_server os s =
    let fd = s.listensock.sockfd in
    let n = os.epoll_ctl s.trace ctl_add fd in
    let t : Trace = controlled ctl_add fd n ∷ s.trace in
    if ltz n (pos 0) then exited 2 t else done (record s { trace = t }) t

pub events_to_string : ℕ → Bytes
events_to_string events =
    (if not (bit_and events epollin == 0) then codes "EPOLLIN" else [])
    ++ (if not (bit_and events epollout == 0) then codes "|EPOLLOUT" else [])

-- The result of epoll_ctl is not read.
pub accepter : Os → EpollServer → EpollServer
unfolding socket_accepter
accepter os s =
    let answer = socket_accepter os s.listensock s.trace in
    let sockfd = answer.0 in
    let t = answer.2 in
    if ltz sockfd (pos 0)
    then record s { trace = t }
    else record s { trace = controlled ctl_add sockfd (os.epoll_ctl t ctl_add sockfd) ∷ t }

abbrev pub content : Bytes
content = codes "<html><body><h1>hello bite, hello world</h1></body></html>"

pub response : Bytes
response =
    codes "HTTP/1.0 200 OK\r\n"
    ++ codes "Content-Type: text/html\r\n"
    ++ codes "Content-Length: "
    ++ to_string (length content)
    ++ codes "\r\n"
    ++ codes "\r\n"
    ++ content

-- Take the descriptor out of epoll, and close it.
drop_link : Os → ℤ → Trace → Trace
drop_link os fd t = closed fd ∷ controlled ctl_del fd (os.epoll_ctl t ctl_del fd) ∷ t

pub handler_io : Os → ℤ → EpollServer → EpollServer
unfolding drop_link
handler_io os fd s =
    let n = (os.recv s.trace fd 4095).n in
    let t = received fd n ∷ s.trace in
    if ltz (pos 0) n
    then record s { trace = sent fd response ∷ t }
    else if eqb n (pos 0)
    then record s { trace = drop_link os fd t }
    else record s { trace = drop_link os fd t }

-- One event of `revs`.
pub handler_one : Os → EpollEvent → EpollServer → EpollServer
handler_one os e s =
    if not (bit_and e.events epollin == 0)
    then (if eqb e.fd s.listensock.sockfd then accepter os s else handler_io os e.fd s)
    else s

-- The first `n` events of `revs`.
pub handler_events : Os → ℕ → List EpollEvent → EpollServer → EpollServer
handler_events os zero es s = s
handler_events os (suc n) [] s = s
handler_events os (suc n) (e ∷ es) s = handler_events os n es (handler_one os e s)

-- No event is handled for a count that is not positive.
pub handler_event : Os → ℤ → EpollServer → EpollServer
handler_event os (pos n) s = handler_events os n s.revs s
handler_event os (negsuc n) s = s

-- One round of `Loop`. In every case of the `switch` the source only logs: its call of
-- `HandlerEvent` is commented out.
pub round : Os → EpollServer → EpollServer
round os s =
    let answer = os.epoll_wait s.trace s.epfd max_events in
    let s' = record s { revs = answer.revs; trace = waited answer.n ∷ s.trace } in
    if eqb answer.n (pos 0) then s' else if eqb answer.n (negsuc 0) then s' else s'

-- `Loop` never returns: its state after a number of rounds.
pub loop : Os → ℕ → EpollServer → EpollServer
loop os zero s = s
loop os (suc rounds) s = loop os rounds (round os s)

-- The destructor.
pub destroy : EpollServer → Trace
unfolding socket_close
destroy s =
    socket_close s.listensock (if ltz s.epfd (pos 0) then s.trace else (closed s.epfd ∷ s.trace))
