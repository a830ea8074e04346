-- ===== src/EpollServer/Tests.antt =====
-- The epoll server run on the sample operating system.
use linux_cpp.Common.{◌≡◌, refl, [], ◌∷◌, pos, codes}
use linux_cpp.Os.{accepted, received, controlled, closed, ctl_add, ctl_del}
use linux_cpp.Os.Sample.{sample_os}
use linux_cpp.Os.{Trace, epoll_created, listened, bound, reused, socketed}
use linux_cpp.Socket.{build_listen_socket}
use linux_cpp.WatchSet.{add, replay}
use linux_cpp.EpollServer.Interest.{watching, Runs-watching, starts, rounds, handles}
use linux_cpp.EpollServer.{
  construct, init_server, round, EpollServer, handler_event, handler_events, handler_one,
  handler_io, accepter, events_to_string,
}

-- The listening socket 3 and the connection 9 are readable.
abbrev small_server : EpollServer
small_server = record {
  port = 8080;
  listensock = record { sockfd = pos 3 };
  epfd = pos 4;
  revs = record { fd = pos 3; events = 1 } ∷ record { fd = pos 9; events = 5 } ∷ [];
  trace = [];
}

handler_event_test :
    (handler_event sample_os (pos 2) small_server).trace
    ≡ closed (pos 9)
      ∷ controlled ctl_del (pos 9) (pos 0)
      ∷ received (pos 9) (pos 0)
      ∷ controlled ctl_add (pos 5) (pos 0)
      ∷ accepted (pos 3) (pos 5)
      ∷ []
unfolding handler_event handler_events handler_one handler_io accepter
handler_event_test = refl

events_test : events_to_string 4 ≡ codes "|EPOLLOUT"
unfolding events_to_string
events_test = refl

abbrev built_trace : Trace
built_trace =
    epoll_created (pos 4)
    ∷ listened (pos 3) 8 (pos 0)
    ∷ bound (pos 3) 8080 (pos 0)
    ∷ reused (pos 3)
    ∷ socketed (pos 3)
    ∷ []

abbrev built_server : EpollServer
built_server = record {
  port = 8080;
  listensock = record { sockfd = pos 3 };
  epfd = pos 4;
  revs = [];
  trace = built_trace;
}

abbrev ready_server : EpollServer
ready_server = record built_server { trace = controlled ctl_add (pos 3) (pos 0) ∷ built_trace }

-- Two rounds, each with the events of the round handled: a connection is accepted each time.
Runs-watching_example :
    let s' =
      handler_event sample_os
        (pos 1)
        (round sample_os (handler_event sample_os (pos 1) (round sample_os ready_server))) in
    watching s'.trace ≡ add s'.listensock.sockfd (replay s'.trace)
unfolding construct init_server build_listen_socket
Runs-watching_example =
    Runs-watching sample_os 8080 [] built_server ready_server _ built_trace
      (controlled ctl_add (pos 3) (pos 0) ∷ built_trace) refl refl
      (handles (pos 1) (rounds (handles (pos 1) (rounds starts))))
