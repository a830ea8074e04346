-- ===== src/TcpServer/Tests.antt =====
-- One client that comes and leaves at once.
use linux_cpp.Common.{
  ◌+◌, ◌≡◌, true, refl, List, [], ◌∷◌, Bytes, Option, none, ℤ, pos, total, arith,
}
use linux_cpp.Os.{Trace, accepts, closes, accepted, received, closed}
use linux_cpp.Os.Sample.{sample_os}
use linux_cpp.Command.{left}
use linux_cpp.Command.Guard.{AllSafe}
use linux_cpp.TcpServer.{
  TcpServer, Running, ended, loop_once, receive, accepts_one, receives, closes_one, Reach, begin,
  next,
}
use linux_cpp.TcpServer.Descriptors.{holds, left_open, Reach-balanced}

abbrev no_pipe : Bytes → Option (List Bytes)
no_pipe command = none

abbrev threads_work : Trace → ℤ
threads_work t = pos 0

abbrev listening : TcpServer
listening = record { port = 8888; listensockfd = pos 3; isrunning = true }

abbrev after_one : Running
after_one = record {
  clients = ended ∷ [];
  trace = closed (pos 5) ∷ received (pos 5) (pos 0) ∷ accepted (pos 3) (pos 5) ∷ [];
  actions = left ∷ [];
}

run : Reach sample_os no_pipe threads_work listening [] after_one
unfolding loop_once receive
run =
    next (next (next begin accepts_one) (receives 0 (pos 5) (omega arith) refl))
      (closes_one 0 (pos 5) (omega arith) refl)

Reach-balanced_example :
    (accepts (pos 5) after_one.trace + closes (pos 5) []
      ≡ accepts (pos 5) []
        + closes (pos 5) after_one.trace
        + total (holds (pos 5)) after_one.clients
        + total (left_open (pos 5)) after_one.clients)
    × AllSafe after_one.actions
Reach-balanced_example = Reach-balanced sample_os no_pipe threads_work listening [] after_one 5 run
