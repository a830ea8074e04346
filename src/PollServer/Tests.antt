-- ===== src/PollServer/Tests.antt =====
-- The poll server run on the sample operating system.
use linux_cpp.Common.{
  zero, suc, ◌≡◌, refl, List, [], ◌∷◌, pos, replicate, length, length-replicate, inl, inr,
}
use linux_cpp.Os.{Trace, Extends, socketed, reused, bound, listened}
use linux_cpp.Os.Sample.{sample_os, sample_os-NotZero}
use linux_cpp.Socket.{build_listen_socket}
use linux_cpp.PollServer.{
  PollFd, free_slot, PollServer, construct, init_server, accepter, handler_io, handler_event,
  handler_slot, loop, place_after_first,
}
use linux_cpp.PollServer.Invariant.{Inv, loop_watches}
use linux_cpp.PollServer.Dispatch.{Serves, Quiet, handler_event-Reported}

abbrev stale : PollFd
stale = record { fd = pos 7; events = 9; revents = 9 }

abbrev garbage : List PollFd
garbage = replicate 1024 stale

abbrev built_trace : Trace
built_trace =
    listened (pos 3) 8 (pos 0) ∷ bound (pos 3) 8080 (pos 0) ∷ reused (pos 3) ∷ socketed (pos 3) ∷ []

abbrev built_server : PollServer
built_server = record {
  port = 8080;
  listensock = record { sockfd = pos 3 };
  fd_events = garbage;
  trace = built_trace;
}

length-garbage : length garbage ≡ 1024
length-garbage = length-replicate 1024 stale

loop_watches_example : Inv (loop sample_os 2 (init_server built_server))
unfolding construct build_listen_socket
loop_watches_example =
    loop_watches sample_os sample_os-NotZero 8080 garbage built_server built_trace 2 length-garbage
      refl

-- three slots: the listening socket, a readable connection, a free one
abbrev small_server : PollServer
small_server = record {
  port = 8080;
  listensock = record { sockfd = pos 3 };
  fd_events =
      record { fd = pos 3; events = 1; revents = 1 }
      ∷ record { fd = pos 9; events = 1; revents = 1 }
      ∷ free_slot
      ∷ [];
  trace = [];
}

small_server-Quiet : Quiet small_server.fd_events
small_server-Quiet zero = inl refl
small_server-Quiet (suc zero) = inl refl
small_server-Quiet (suc (suc zero)) = inr refl
small_server-Quiet (suc (suc (suc j))) = inr refl

handler_event-Reported_example :
    Extends (Serves small_server) [] (handler_event sample_os small_server).trace
handler_event-Reported_example = handler_event-Reported sample_os small_server small_server-Quiet

-- The ended connection leaves a free slot; the new connection is watched for input.
dispatch_test :
    (handler_slot sample_os 1 (handler_slot sample_os 0 small_server)).fd_events
    ≡ record { fd = pos 3; events = 1; revents = 1 }
      ∷ free_slot
      ∷ record { fd = pos 5; events = 1; revents = 0 }
      ∷ []
unfolding handler_slot accepter handler_io place_after_first
dispatch_test = refl
