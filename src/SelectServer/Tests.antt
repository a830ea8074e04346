-- ===== src/SelectServer/Tests.antt =====
-- The select server run on the sample operating system.
use linux_cpp.Common.{◌≡◌, refl, List, [], ◌∷◌, true, false, ℤ, pos, replicate, length-replicate}
use linux_cpp.Os.{Trace, Extends, socketed, reused, bound, listened}
use linux_cpp.Os.Sample.{sample_os, sample_os-Ordinary}
use linux_cpp.Socket.{build_listen_socket}
use linux_cpp.SelectServer.{
  gdefaultfd, SelectServer, construct, init_server, accepter, handler_io, handler_event,
  handler_slot, all_in_set, loop, place_after_first,
}
use linux_cpp.SelectServer.Invariant.{Inv, loop_balanced}
use linux_cpp.SelectServer.Handlers.{Serves, handler_event-Serves}

abbrev garbage : List ℤ
garbage = replicate 1024 (pos 7)

abbrev built_trace : Trace
built_trace =
    listened (pos 3) 8 (pos 0) ∷ bound (pos 3) 8080 (pos 0) ∷ reused (pos 3) ∷ socketed (pos 3) ∷ []

abbrev built_server : SelectServer
built_server = record {
  port = 8080;
  listensock = record { sockfd = pos 3 };
  fd_array = garbage;
  trace = built_trace;
  fault = false;
}

loop_balanced_example : Inv (loop sample_os 2 (init_server built_server))
unfolding construct build_listen_socket
loop_balanced_example =
    loop_balanced sample_os sample_os-Ordinary 8080 garbage built_server built_trace 2
      (length-replicate 1024 (pos 7)) refl

-- three slots: the listening socket, a connection, a free one
abbrev small_server : SelectServer
small_server = record {
  port = 8080;
  listensock = record { sockfd = pos 3 };
  fd_array = pos 3 ∷ pos 9 ∷ gdefaultfd ∷ [];
  trace = [];
  fault = false;
}

handler_event-Serves_example :
    let s' = handler_event sample_os (λ _. true) small_server in
    Extends (Serves (λ _. true) (pos 3)) [] s'.trace
    × (s'.listensock ≡ small_server.listensock)
    × (s'.fault ≡ false)
    × (all_in_set s'.fd_array ≡ true)
handler_event-Serves_example =
    handler_event-Serves sample_os sample_os-Ordinary (λ _. true) small_server refl refl

-- A connection that has ended is closed and its slot is free again; the new one took slot 2.
dispatch_test :
    (handler_slot sample_os
      (λ _. true)
      1
      (handler_slot sample_os (λ _. true) 0 small_server)).fd_array
    ≡ pos 3 ∷ gdefaultfd ∷ pos 5 ∷ []
unfolding handler_slot accepter handler_io place_after_first
dispatch_test = refl
