-- ===== src/ChatServer/Tests.antt =====
-- One message through a chat server whose pool has one thread.
use linux_cpp.Common.{
  ℕ, ◌+◌, ◌<◌, ◌≡◌, refl, List, [], ◌∷◌, ◌++◌, map, Bytes, codes, true, length, pos, arith,
  replicate,
}
use linux_cpp.Os.{Extends, received, sent_to}
use linux_cpp.Os.Sample.{sample_os, sample_peer}
use linux_cpp.Socket.{c_string}
use linux_cpp.Route.{
  InetAddr, Task, check_online_user, is_online, send_message, addr_str, forward_helper,
}
use linux_cpp.Route.Online.{Distinct}
use linux_cpp.ThreadPool.{ready, no_signal, work, finish, equeue, handler_task, take_or_wait}
use linux_cpp.UdpServer.Replies.{datagrams}
use linux_cpp.ChatServer.{
  ChatServer, to_host, listening, hear, sends, forward_task, hears, checks, queues, serves,
  ChatReach, begin, next,
}
use linux_cpp.ChatServer.Sent.{Sends}
use linux_cpp.ChatServer.Invariant.{
  pending, held, content, ChatReach-Distinct, ChatReach-balanced, ChatReach-Sends,
}

abbrev localhost : ℕ → Bytes
localhost ip = codes "127.0.0.1"

abbrev alice : InetAddr
alice = to_host localhost sample_peer

abbrev hi : Task
hi = forward_task sample_os localhost (pos 3) (codes "hi") alice

abbrev answered : ChatServer
answered = record {
  main = listening;
  users = alice ∷ [];
  system = record {
    pool = record {
      task_queue = [];
      isrunning = true;
      sleep_thread_num = 0;
      accepted = hi ∷ [];
      taken = hi ∷ [];
    };
    threads = ready ∷ [];
  };
  trace =
      sent_to (pos 3) (codes "[127.0.0.1:8888]# hi") sample_peer ∷ received (pos 3) (pos 2) ∷ [];
  heard = (codes "hi", alice) ∷ [];
}

run : ChatReach sample_os localhost (pos 3) 1 answered
unfolding hear c_string check_online_user is_online equeue handler_task take_or_wait sends
    forward_helper send_message addr_str linux_cpp.Common.to_string
run =
    next
      (next
        (next (next (next begin (hears refl)) (checks (codes "hi") alice refl))
          (queues (codes "hi") alice refl no_signal))
        (serves (work 0 (omega arith) refl)))
      (serves (finish 0 hi (omega arith) refl))

ChatReach-Distinct_example : Distinct (alice ∷ [])
ChatReach-Distinct_example =
    ChatReach-Distinct sample_os localhost (pos 3) 1 answered (omega arith) run

ChatReach-balanced_example :
    (datagrams answered.trace
      ≡ length answered.system.pool.taken
        + length answered.system.pool.task_queue
        + pending listening)
    × (answered.heard
        ≡ map content (answered.system.pool.taken ++ answered.system.pool.task_queue)
          ++ held listening)
ChatReach-balanced_example =
    ChatReach-balanced sample_os localhost (pos 3) 1 answered (omega arith) run

ChatReach-Sends_example : Extends (Sends (hi ∷ [])) [] answered.trace
ChatReach-Sends_example = ChatReach-Sends sample_os localhost (pos 3) 1 answered (omega arith) run
