-- ===== src/SelectServer.antt =====
-- IO/SelectServer/SelectServer.hpp: `SelectServer`. `fd_array` has a slot for each descriptor that
-- select watches; slot 0 is the listening socket, and a free slot holds `gdefaultfd`. The field
-- `trace` holds the system calls made so far, newest first. `LOG` lines and the text that is
-- printed for a message are left out; `PrintDebug` is the event `printed`. With `fault` the code has
-- called FD_SET or FD_ISSET outside the set; nothing is said of what follows.
pub mod Table
pub mod InSet
pub mod Cleared
pub mod Invariant
pub mod FdSet
pub mod Handlers
mod Tests
use linux_cpp.Common.{
  ℕ, zero, suc, ◌+◌, ◌*◌, List, [], ◌∷◌, ◌++◌, Bool, true, false, if◌then◌else◌, ℤ, pos, negsuc,
  eqb, ltz, Bytes, codes, to_string, length, get_or, set, replicate, Option, none, some, not, ◌||◌,
  ◌&&◌, ltb,
}
use linux_cpp.Os.{Os, Trace, accepted, received, sent, closed, waited, printed, Selected}
use linux_cpp.Socket.{TcpSocket, M, ◌>>=◌, return, build_listen_socket, accepter as socket_accepter}

-- sizeof(fd_set) * 8
abbrev pub gnum : ℕ
gnum = 128 * 8

abbrev pub gdefaultfd : ℤ
gdefaultfd = negsuc 0

pub record SelectServer : Type 0 where
  pub port : ℕ
  pub listensock : TcpSocket
  pub fd_array : List ℤ
  pub trace : Trace
  pub fault : Bool

-- The constructor. `fd_array` is not initialised there: `garbage` stands for what it holds.
unfoldable pub construct : Os → ℕ → List ℤ → M SelectServer
construct os port garbage t =
    (do
      sock ← build_listen_socket os port
      λ t'.
          return
            (record {
              port = port;
              listensock = sock;
              fd_array = garbage;
              trace = t';
              fault = false;
            })
            t')
      t

-- `for i < gnum: fd_array[i] = -1`, then slot 0.
pub clear_from : ℕ → ℕ → List ℤ → List ℤ
clear_from zero i a = a
clear_from (suc rounds) i a = clear_from rounds (suc i) (set a i gdefaultfd)

pub init_server : SelectServer → SelectServer
unfolding clear_from
init_server s = record s { fd_array = set (clear_from gnum 0 s.fd_array) 0 s.listensock.sockfd }

-- The search of `Accepter` from slot 1 on: the array with the descriptor in its first free slot.
pub place : ℤ → List ℤ → Option (List ℤ)
place sockfd [] = none
place sockfd (x ∷ xs) =
    if eqb x gdefaultfd
    then some (sockfd ∷ xs)
    else elim (place sockfd xs) [ none ↦ none | some ys ↦ some (x ∷ ys) ]

pub place_after_first : ℤ → List ℤ → Option (List ℤ)
unfolding place
place_after_first sockfd [] = none
place_after_first sockfd (x ∷ xs) = elim (place sockfd xs) [ none ↦ none | some ys ↦ some (x ∷ ys) ]

pub accepter : Os → SelectServer → SelectServer
unfolding socket_accepter
accepter os s =
    let answer = socket_accepter os s.listensock s.trace in
    let sockfd = answer.0 in
    let t = answer.2 in
    if ltz (pos 0) sockfd
    then elim (place_after_first sockfd s.fd_array) [
      | some fds ↦ record s { fd_array = fds; trace = t }
      | none ↦ record s { trace = closed sockfd ∷ t }
    ]
    else record s { trace = t }

abbrev pub content : Bytes
content = codes "<html><body><h1>hello bite</h1></body></html>"

pub echo_str : Bytes
echo_str =
    codes "HTTP/1.0 200 OK\r\n"
    ++ codes "Content-Type: text/html\r\n"
    ++ codes "Content-Length: "
    ++ to_string (length content)
    ++ codes "\r\n\r\n"
    ++ content

pub handler_io : Os → ℕ → SelectServer → SelectServer
handler_io os i s =
    let fd = get_or s.fd_array i gdefaultfd in
    let n = (os.recv s.trace fd 1023).n in
    let t = received fd n ∷ s.trace in
    if ltz (pos 0) n
    then record s { trace = sent fd echo_str ∷ t }
    else if eqb n (pos 0)
    then record s { fd_array = set s.fd_array i gdefaultfd; trace = closed fd ∷ t }
    else record s { fd_array = set s.fd_array i gdefaultfd; trace = closed fd ∷ t }

-- Whether a descriptor lies in an fd_set.
abbrev pub in_set : ℤ → Bool
in_set (pos n) = ltb n gnum
in_set (negsuc n) = false

-- Whether FD_SET may be called on each slot that is not free.
abbrev pub all_in_set : List ℤ → Bool
all_in_set [] = true
all_in_set (fd ∷ fds) = (eqb fd gdefaultfd || in_set fd) && all_in_set fds

-- The body of the loop of `HandlerEvent` at slot `i`.
pub handler_slot : Os → (ℤ → Bool) → ℕ → SelectServer → SelectServer
handler_slot os rfds i s =
    let fd = get_or s.fd_array i gdefaultfd in
    if eqb fd gdefaultfd
    then s
    else if not (in_set fd)
    then record s { fault = true }
    else if rfds fd
    then (if eqb s.listensock.sockfd fd then accepter os s else handler_io os i s)
    else s

-- `rounds` is the number of slots left.
pub handler_event_from : Os → (ℤ → Bool) → ℕ → ℕ → SelectServer → SelectServer
handler_event_from os rfds zero i s = s
handler_event_from os rfds (suc rounds) i s =
    handler_event_from os rfds rounds (suc i) (handler_slot os rfds i s)

pub handler_event : Os → (ℤ → Bool) → SelectServer → SelectServer
handler_event os rfds s = handler_event_from os rfds gnum 0 s

-- FD_SET, of a descriptor in the set
pub fd_set : ℤ → (ℤ → Bool) → ℤ → Bool
fd_set fd rfds x = eqb fd x || rfds x

-- The loop of `Loop` that fills `rfds` and finds the largest descriptor.
pub collect : List ℤ → (ℤ → Bool) → ℤ → (ℤ → Bool) × ℤ
collect [] rfds max_fd = (rfds, max_fd)
collect (fd ∷ fds) rfds max_fd =
    collect fds (if eqb fd gdefaultfd then rfds else fd_set fd rfds)
      (if eqb fd gdefaultfd then max_fd else if ltz max_fd fd then fd else max_fd)

pub succ : ℤ → ℤ
succ (pos n) = pos (suc n)
succ (negsuc zero) = pos 0
succ (negsuc (suc n)) = negsuc n

listed : List ℤ → List ℤ
listed [] = []
listed (x ∷ xs) = if eqb x gdefaultfd then listed xs else (x ∷ listed xs)

pub print_debug : SelectServer → SelectServer
unfolding listed
print_debug s = record s { trace = printed (listed s.fd_array) ∷ s.trace }

-- The first half of a round of `Loop`: fill the set, and select.
pub select_once : Os → SelectServer → Selected
unfolding succ
select_once os s =
    let (rfds, max_fd) = collect s.fd_array (λ _. false) gdefaultfd in
    os.select s.trace (succ max_fd) rfds

-- The `switch` of `Loop` on the result of select.
pub switch : Os → Selected → SelectServer → SelectServer
switch os answer s =
    if eqb answer.n (pos 0)
    then s
    else if eqb answer.n (negsuc 0)
    then s
    else print_debug (handler_event os answer.rfds s)

pub round : Os → SelectServer → SelectServer
unfolding select_once
round os s =
    let answer = select_once os s in
    if all_in_set s.fd_array
    then switch os answer (record s { trace = waited answer.n ∷ s.trace })
    else record s { fault = true }

-- `Loop` never returns: its state after a number of rounds.
pub loop : Os → ℕ → SelectServer → SelectServer
loop os zero s = s
loop os (suc rounds) s = loop os rounds (round os s)
