-- ===== src/TcpServer/Descriptors.antt =====
-- What the server does with descriptors and commands.
use linux_cpp.Common.{
  ℕ, ◌+◌, ◌<◌, ◌≡◌, ap, List, if_both, ℤ, pos, ltz, Bytes, Option, length, get_or, hit, total,
  total-set, arith,
}
use linux_cpp.Os.{Os, Trace, accepts, closes}
use linux_cpp.Socket.{c_string, filled}
use linux_cpp.Command.{excute}
use linux_cpp.Command.Guard.{AllSafe, excute_lem}
use linux_cpp.TcpServer.{
  TcpServer, Client, reading, replying, closing, ended, lost, Running, loop_once, receive, Step,
  accepts_one, receives, replies, closes_one, Reach, begin, next,
}

-- The descriptor of a thread's connection, as a count.
abbrev pub holds : ℤ → Client → ℕ
holds fd (reading sockfd) = hit sockfd fd
holds fd (replying sockfd result) = hit sockfd fd
holds fd (closing sockfd) = hit sockfd fd
holds fd ended = 0
holds fd (lost sockfd) = 0

-- A descriptor that was to be given to a thread when pthread_create failed.
abbrev pub left_open : ℤ → Client → ℕ
left_open fd (lost sockfd) = hit sockfd fd
left_open fd (reading sockfd) = 0
left_open fd (replying sockfd result) = 0
left_open fd (closing sockfd) = 0
left_open fd ended = 0

-- Since the trace `t`: `fd` came out of accept as often as it was closed, is held by a thread or is
-- left open.
pub record Inv (n : ℕ) (t : Trace) (r : Running) : Type 0 where
  pub balance :
      accepts (pos n) r.trace + closes (pos n) t
      ≡ accepts (pos n) t
        + closes (pos n) r.trace
        + total (holds (pos n)) r.clients
        + total (left_open (pos n)) r.clients
  pub safe : AllSafe r.actions

module _ (os : Os) (popen : Bytes → Option (List Bytes)) (pthread_create : Trace → ℤ)
    (s : TcpServer) where
  loop_once-Inv :
      {n : ℕ} {t : Trace} {r : Running}
      → Inv n t r
      → Inv n t (loop_once os popen pthread_create s r)
  unfolding loop_once accepts closes
  loop_once-Inv {n} {t} {r} v = ground (arith, v.balance)

  receive-Inv :
      {n : ℕ} {t : Trace} {r : Running} (i : ℕ) (sockfd : ℤ)
      → i < length r.clients
      → get_or r.clients i ended ≡ reading sockfd
      → Inv n t r
      → Inv n t (receive os popen pthread_create s i sockfd r)
  unfolding receive accepts closes
  receive-Inv {n} {t} {r} i sockfd lt e v =
      let answer = os.recv r.trace sockfd 1023 in
      let run = excute popen (c_string (filled answer.n answer.buffer)) r.actions in
      if_both (Inv n t) (ltz (pos 0) answer.n)
        (record {
          balance = omega (
            arith,
            v.balance,
            total-set (holds (pos n)) r.clients i (replying sockfd run.0) ended lt,
            ap (holds (pos n)) e,
            total-set (left_open (pos n)) r.clients i (replying sockfd run.0) ended lt,
            ap (left_open (pos n)) e,
          );
          safe = (excute_lem popen (c_string (filled answer.n answer.buffer)) r.actions v.safe).0;
        })
        (record {
          balance = omega (
            arith,
            v.balance,
            total-set (holds (pos n)) r.clients i (closing sockfd) ended lt,
            ap (holds (pos n)) e,
            total-set (left_open (pos n)) r.clients i (closing sockfd) ended lt,
            ap (left_open (pos n)) e,
          );
          safe = v.safe;
        })

  Step-Inv :
      {n : ℕ} {t : Trace} {r r' : Running}
      → Step os popen pthread_create s r r'
      → Inv n t r
      → Inv n t r'
  unfolding accepts closes
  Step-Inv accepts_one v = loop_once-Inv v
  Step-Inv (receives i sockfd lt e) v = receive-Inv i sockfd lt e v
  Step-Inv {n} {t} {r} (replies i sockfd result lt e) v = record {
    balance = omega (
      arith,
      v.balance,
      total-set (holds (pos n)) r.clients i (reading sockfd) ended lt,
      ap (holds (pos n)) e,
      total-set (left_open (pos n)) r.clients i (reading sockfd) ended lt,
      ap (left_open (pos n)) e,
    );
    safe = v.safe;
  }
  Step-Inv {n} {t} {r} (closes_one i sockfd lt e) v = record {
    balance = omega (
      arith,
      v.balance,
      total-set (holds (pos n)) r.clients i ended ended lt,
      ap (holds (pos n)) e,
      total-set (left_open (pos n)) r.clients i ended ended lt,
      ap (left_open (pos n)) e,
    );
    safe = v.safe;
  }

  Reach-Inv : {t : Trace} {r : Running} (n : ℕ) → Reach os popen pthread_create s t r → Inv n t r
  Reach-Inv n begin = record { balance = omega arith; safe = tt }
  Reach-Inv n (next r step) = Step-Inv step (Reach-Inv n r)

  -- Whatever the operating system, the clients, popen and pthread_create answer and however the
  -- threads interleave: since `Loop` began, each descriptor has come out of accept as often as it was
  -- closed, is held by the thread of its connection, or was to be given to a thread that
  -- pthread_create failed to make (and is never closed); and each command that ran begins with a
  -- command of the white list.
  pub Reach-balanced :
      (t : Trace) (r : Running) (n : ℕ)
      → Reach os popen pthread_create s t r
      → (accepts (pos n) r.trace + closes (pos n) t
          ≡ accepts (pos n) t
            + closes (pos n) r.trace
            + total (holds (pos n)) r.clients
            + total (left_open (pos n)) r.clients)
        × AllSafe r.actions
  Reach-balanced t r n reached = let v = Reach-Inv n reached in (v.balance, v.safe)
