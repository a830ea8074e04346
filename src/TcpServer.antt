-- ===== src/TcpServer.antt =====
-- Socket/5.command_server/TcpServer.hpp (the same file stands in Http): the server that accepts
-- on one thread and gives each connection to a detached thread of its own, with `HandlerCommand`
-- of Command.hpp as the service. The threads interleave in any order; a step is one call.
pub mod Descriptors
mod Tests
use linux_cpp.Common.{
  ℕ, ◌<◌, ◌≡◌, List, [], ◌∷◌, Bool, true, false, if◌then◌else◌, ℤ, pos, negsuc, eqb, ltz, Bytes,
  Option, length, get_or, set,
}
use linux_cpp.Os.{Os, Trace, socketed, bound, listened, accepted, received, sent, closed}
use linux_cpp.Socket.{
  M, done, exited, c_string, filled, socket_error, bind_error, listen_err, gblcklog,
}
use linux_cpp.Command.{Action, replied, left, excute}

abbrev pub gsock : ℤ
gsock = negsuc 0

pub record TcpServer : Type 0 where
  pub port : ℕ
  pub listensockfd : ℤ
  pub isrunning : Bool

pub construct : ℕ → TcpServer
construct port = record { port = port; listensockfd = gsock; isrunning = false }

-- `InitServer`: socket, bind and listen, or the end of the process.
pub init_server : Os → TcpServer → M TcpServer
init_server os s t =
    let fd = os.socket t in
    let t₁ : Trace = socketed fd ∷ t in
    let b = os.bind t₁ fd s.port in
    let t₂ : Trace = bound fd s.port b ∷ t₁ in
    let l = os.listen t₂ fd gblcklog in
    if ltz fd (pos 0)
    then exited socket_error t₁
    else if ltz b (pos 0)
    then exited bind_error t₂
    else if ltz l (pos 0)
    then exited listen_err (listened fd gblcklog l ∷ t₂)
    else done (record s { listensockfd = fd }) (listened fd gblcklog l ∷ t₂)

-- Where the thread of a connection stands: in `HandlerCommand`, or after it in `Execute`.
pub data Client : Type 0 where
  reading : (sockfd : ℤ) → Client
  replying : (sockfd : ℤ) → (result : Bytes) → Client
  closing : (sockfd : ℤ) → Client
  ended : Client
  lost : (sockfd : ℤ) → Client  -- pthread_create failed: nobody has the descriptor

pub record Running : Type 0 where
  pub clients : List Client
  pub trace : Trace
  pub actions : List Action

module _ (os : Os) (popen : Bytes → Option (List Bytes)) (pthread_create : Trace → ℤ)
    (s : TcpServer) where
  -- One turn of `Loop`. The code does not look at the result of pthread_create, which is 0 or the
  -- number of an error.
  unfoldable pub loop_once : Running → Running
  loop_once r =
      let answer = os.accept r.trace s.listensockfd in
      let t : Trace = accepted s.listensockfd answer.fd ∷ r.trace in
      if ltz answer.fd (pos 0) then record r { trace = t } else record r {
        clients =
            (if eqb (pthread_create t) (pos 0) then reading answer.fd else lost answer.fd)
            ∷ r.clients;
        trace = t;
      }

  -- recv in `HandlerCommand`, and `Excute` of what it read.
  unfoldable pub receive : ℕ → ℤ → Running → Running
  unfolding c_string
  receive i sockfd r =
      let answer = os.recv r.trace sockfd 1023 in
      let t : Trace = received sockfd answer.n ∷ r.trace in
      if ltz (pos 0) answer.n
      then (let (result, actions) =
            excute popen (c_string (filled answer.n answer.buffer)) r.actions in
          record {
            clients = set r.clients i (replying sockfd result);
            trace = t;
            actions = actions;
          })
      else record {
        clients = set r.clients i (closing sockfd);
        trace = t;
        actions = left ∷ r.actions;
      }

  pub data Step (r : Running) : Running → Type 0 where
    accepts_one : Step r (loop_once r)
    receives :
        (i : ℕ) (sockfd : ℤ)
        → i < length r.clients
        → get_or r.clients i ended ≡ reading sockfd
        → Step r (receive i sockfd r)
    replies :
        (i : ℕ) (sockfd : ℤ) (result : Bytes)
        → i < length r.clients
        → get_or r.clients i ended ≡ replying sockfd result
        → Step r (record {
          clients = set r.clients i (reading sockfd);
          trace = sent sockfd result ∷ r.trace;
          actions = replied result ∷ r.actions;
        })
    closes_one :
        (i : ℕ) (sockfd : ℤ)
        → i < length r.clients
        → get_or r.clients i ended ≡ closing sockfd
        → Step r (record r { clients = set r.clients i ended; trace = closed sockfd ∷ r.trace })

  -- What `Loop` comes to from a trace in which no thread runs.
  pub data Reach (t : Trace) : Running → Type 0 where
    begin : Reach t (record { clients = []; trace = t; actions = [] })
    next : {r r' : Running} → Reach t r → Step r r' → Reach t r'
