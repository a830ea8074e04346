-- ===== src/ChatServer.antt =====
-- Socket/3. chat_server/UdpServer.hpp and UdpServerMain.cc: the chat server, whose main thread
-- gives each datagram to `Forward` of Route.hpp while the threads of the pool run
-- `ForwardHelper`. A step is one critical section: of the main thread under Route's mutex or the
-- pool's, or of a thread of the pool. The console output is left out. The field `heard` records
-- the message and the sender of each datagram that was not empty, in order; no code reads it.
pub mod Sent
pub mod Invariant
pub mod Setup
mod Tests
use linux_cpp.Common.{
  ℕ, ◌≡◌, List, [], ◌∷◌, ◌++◌, Bool, true, false, if◌then◌else◌, ℤ, pos, ltz, Bytes, replicate,
}
use linux_cpp.Os.{Os, Trace, SockAddr, received}
use linux_cpp.Socket.{c_string, filled}
use linux_cpp.Route.{InetAddr, Users, Task, is_quit, check_online_user, offline, forward_helper}
use linux_cpp.ThreadPool
use linux_cpp.ThreadPool.{
  System, Signal, equeue, ThreadStep, work, resume, spurious, finish, ready, start_pool,
}

-- inet_ntoa is the function `ntoa`.
abbrev pub to_host : (ℕ → Bytes) → SockAddr → InetAddr
to_host ntoa addr = record { ip = ntoa addr.sin_addr; port = addr.sin_port; addr = addr }

-- Where the main thread stands in `Start` and `Forward`.
pub data Pc : Type 0 where
  listening : Pc  -- before recvfrom
  checking : Bytes → InetAddr → Pc  -- before CheckOnlineUser
  leaving : Bytes → InetAddr → Pc  -- before Offline
  queueing : Bytes → InetAddr → Pc  -- before Equeue

pub record ChatServer : Type 0 where
  pub main : Pc
  pub users : Users
  pub system : System Task
  pub trace : Trace
  pub heard : List (Bytes × InetAddr)

-- What a thread of the pool sends in a step: `t()` runs `ForwardHelper` under Route's mutex.
unfoldable pub sends : {s t : System Task} → ThreadStep Task s t → Users → Trace → Trace
unfolding forward_helper
sends (work i lt e) users trace = trace
sends (resume i lt e) users trace = trace
sends (spurious i lt e) users trace = trace
sends (finish i task lt e) users trace = forward_helper task users trace

module _ (os : Os) (ntoa : ℕ → Bytes) (sockfd : ℤ) where
  -- The main thread after recvfrom: the buffer has 1024 bytes, of which all but one may be filled.
  unfoldable pub hear : ChatServer → ChatServer
  unfolding c_string
  hear c =
      let answer = os.recvfrom c.trace sockfd 1023 in
      let message = c_string (filled answer.n answer.buffer) in
      let who = to_host ntoa answer.peer in
      if ltz (pos 0) answer.n
      then record c {
        main = checking message who;
        trace = received sockfd answer.n ∷ c.trace;
        heard = c.heard ++ ((message, who) ∷ []);
      }
      else record c { main = listening; trace = received sockfd answer.n ∷ c.trace }

  abbrev pub forward_task : Bytes → InetAddr → Task
  forward_task message who = record { sockfd = sockfd; message = message; who = who }

  pub data ChatStep (c : ChatServer) : ChatServer → Type 0 where
    hears : c.main ≡ listening → ChatStep c (hear c)
    checks :
        (message : Bytes) (who : InetAddr)
        → c.main ≡ checking message who
        → ChatStep c (record c {
          main = if is_quit message then leaving message who else queueing message who;
          users = check_online_user who c.users;
        })
    leaves :
        (message : Bytes) (who : InetAddr)
        → c.main ≡ leaving message who
        → ChatStep c (record c { main = queueing message who; users = offline who c.users })
    queues :
        (message : Bytes) (who : InetAddr) {threads : List (ThreadPool.Pc Task)}
        → c.main ≡ queueing message who
        → Signal Task c.system.threads
            (equeue Task (forward_task message who) c.system.pool).1
            threads
        → ChatStep c (record c {
          main = listening;
          system = record {
            pool = (equeue Task (forward_task message who) c.system.pool).0;
            threads = threads;
          };
        })
    serves :
        {s : System Task} (step : ThreadStep Task c.system s)
        → ChatStep c (record c { system = s; trace = sends step c.users c.trace })

  -- A server with a pool of `n` threads, before the first datagram, and what it comes to. The pool
  -- is started by the first Equeue, before which its threads would only wait.
  pub data ChatReach (n : ℕ) : ChatServer → Type 0 where
    begin : ChatReach n (record {
      main = listening;
      users = [];
      system = record { pool = start_pool Task; threads = replicate n ready };
      trace = [];
      heard = [];
    })
    next : {c d : ChatServer} → ChatReach n c → ChatStep c d → ChatReach n d
