-- ===== src/PollServer.antt =====
-- IO/Pollserver/PollServer.hpp: `PollServer`. `fd_events` has a slot for each descriptor that poll
-- watches; slot 0 is the listening socket, and a free slot holds `gdefaultfd`. `trace` holds the
-- system calls made so far, newest first. `LOG` lines and printed messages are left out.
pub mod Table
pub mod Cleared
pub mod Invariant
pub mod Dispatch
mod Tests
use Prim.Native.Nat.{bit_and}
use linux_cpp.Common.{
  ℕ, zero, suc, ◌*◌, List, [], ◌∷◌, ◌++◌, Bool, true, false, if◌then◌else◌, ℤ, pos, negsuc, not,
  eqb, ltz, ◌==◌, Bytes, codes, to_string, length, get_or, set, Option, none, some, map,
}
use linux_cpp.Os.{Os, Trace, Polled, accepted, received, sent, closed, waited, printed}
use linux_cpp.Socket.{TcpSocket, M, ◌>>=◌, return, build_listen_socket, accepter as socket_accepter}

abbrev pub gnum : ℕ
gnum = 128 * 8

abbrev pub gdefaultfd : ℤ
gdefaultfd = negsuc 0

abbrev pub pollin : ℕ
pollin = 1

-- struct pollfd
pub record PollFd : Type 0 where
  pub fd : ℤ
  pub events : ℕ
  pub revents : ℕ

abbrev pub free_slot : PollFd
free_slot = record { fd = gdefaultfd; events = 0; revents = 0 }

pub record PollServer : Type 0 where
  pub port : ℕ
  pub listensock : TcpSocket
  pub fd_events : List PollFd
  pub trace : Trace

-- The constructor. `fd_events` is not initialised there: `garbage` stands for what it holds.
unfoldable pub construct : Os → ℕ → List PollFd → M PollServer
construct os port garbage t =
    (do
      sock ← build_listen_socket os port
      λ t'. return (record { port = port; listensock = sock; fd_events = garbage; trace = t' }) t')
      t

-- The loop of `InitServer`.
pub clear_from : ℕ → ℕ → List PollFd → List PollFd
clear_from zero i a = a
clear_from (suc rounds) i a = clear_from rounds (suc i) (set a i free_slot)

-- Slot 0 keeps the `revents` that the loop cleared.
pub init_server : PollServer → PollServer
unfolding clear_from
init_server s =
    let cleared = clear_from gnum 0 s.fd_events in
    let slot = get_or cleared 0 free_slot in
    record s {
      fd_events = set cleared 0 (record slot { fd = s.listensock.sockfd; events = pollin });
    }

-- The search of `Accepter`: the first free slot takes the descriptor, and keeps its `revents`.
pub place : ℤ → List PollFd → Option (List PollFd)
place sockfd [] = none
place sockfd (x ∷ xs) =
    if eqb x.fd gdefaultfd
    then some (record x { fd = sockfd; events = pollin } ∷ xs)
    else elim (place sockfd xs) [ none ↦ none | some ys ↦ some (x ∷ ys) ]

pub place_after_first : ℤ → List PollFd → Option (List PollFd)
unfolding place
place_after_first sockfd [] = none
place_after_first sockfd (x ∷ xs) = elim (place sockfd xs) [ none ↦ none | some ys ↦ some (x ∷ ys) ]

pub accepter : Os → PollServer → PollServer
unfolding socket_accepter
accepter os s =
    let answer = socket_accepter os s.listensock s.trace in
    let sockfd = answer.0 in
    let t = answer.2 in
    if ltz (pos 0) sockfd
    then elim (place_after_first sockfd s.fd_events) [
      | some events ↦ record s { fd_events = events; trace = t }
      | none ↦ record s { trace = closed sockfd ∷ t }
    ]
    else record s { trace = t }

abbrev pub content : Bytes
content = codes "<html><body><h1>hello bite</h1></body></html>"

pub echo_str : Bytes
echo_str =
    codes "HTTP/1.0 200 OK\r\n"
    ++ codes "Content-Type: text/html\r\n"
    ++ codes "Content-Length: "
    ++ to_string (length content)
    ++ codes "\r\n\r\n"
    ++ content

pub handler_io : Os → ℕ → PollServer → PollServer
handler_io os i s =
    let fd = (get_or s.fd_events i free_slot).fd in
    let n = (os.recv s.trace fd 1023).n in
    let t = received fd n ∷ s.trace in
    if ltz (pos 0) n
    then record s { trace = sent fd echo_str ∷ t }
    else if eqb n (pos 0)
    then record s { fd_events = set s.fd_events i free_slot; trace = closed fd ∷ t }
    else record s { fd_events = set s.fd_events i free_slot; trace = closed fd ∷ t }

-- revents & POLLIN
abbrev pub readable : PollFd → Bool
readable p = not (bit_and p.revents pollin == 0)

-- The body of the loop of `HandlerEvent` at slot `i`.
pub handler_slot : Os → ℕ → PollServer → PollServer
handler_slot os i s =
    let slot = get_or s.fd_events i free_slot in
    if eqb slot.fd gdefaultfd
    then s
    else if readable slot
    then (if eqb s.listensock.sockfd slot.fd then accepter os s else handler_io os i s)
    else s

-- `rounds` is the number of slots left.
pub handler_event_from : Os → ℕ → ℕ → PollServer → PollServer
handler_event_from os zero i s = s
handler_event_from os (suc rounds) i s = handler_event_from os rounds (suc i) (handler_slot os i s)

pub handler_event : Os → PollServer → PollServer
handler_event os s = handler_event_from os gnum 0 s

listed : List PollFd → List ℤ
listed [] = []
listed (x ∷ xs) = if eqb x.fd gdefaultfd then listed xs else (x.fd ∷ listed xs)

pub print_debug : PollServer → PollServer
unfolding listed
print_debug s = record s { trace = printed (listed s.fd_events) ∷ s.trace }

-- poll writes the `revents` of slot `i` and of those after it.
pub write_revents : (ℕ → ℕ) → ℕ → List PollFd → List PollFd
write_revents revents i [] = []
write_revents revents i (x ∷ xs) =
    record x { revents = revents i } ∷ write_revents revents (suc i) xs

-- The `switch` of `Loop` on the result of poll.
pub switch : Os → ℤ → PollServer → PollServer
switch os n s =
    if eqb n (pos 0) then s else if eqb n (negsuc 0) then s else print_debug (handler_event os s)

-- One round of `Loop`.
pub round : Os → PollServer → PollServer
unfolding write_revents
round os s =
    let answer = os.poll s.trace (map (λ (p : PollFd). (p.fd, p.events)) s.fd_events) in
    switch os answer.n (record s {
      fd_events = write_revents answer.revents 0 s.fd_events;
      trace = waited answer.n ∷ s.trace;
    })

-- `Loop` never returns: its state after a number of rounds.
pub loop : Os → ℕ → PollServer → PollServer
loop os zero s = s
loop os (suc rounds) s = loop os rounds (round os s)
