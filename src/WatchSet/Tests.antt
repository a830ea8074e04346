-- ===== src/WatchSet/Tests.antt =====
-- The tables of a select server and of a poll server on the sample operating system.
use linux_cpp.Common.{◌≡◌, refl, false, List, [], ◌∷◌, ℤ, pos, replicate}
use linux_cpp.Os.{Trace, socketed, reused, bound, listened, received, accepted, closed}
use linux_cpp.SelectServer.{SelectServer}
use linux_cpp.SelectServer as Select
use linux_cpp.PollServer.{PollServer, PollFd}
use linux_cpp.WatchSet.{add, replay, of_list, on_event, remove}

abbrev garbage : List ℤ
garbage = replicate 1024 (pos 7)

abbrev stale : PollFd
stale = record { fd = pos 7; events = 9; revents = 9 }

abbrev stale_slots : List PollFd
stale_slots = replicate 1024 stale

abbrev built_trace : Trace
built_trace =
    listened (pos 3) 8 (pos 0) ∷ bound (pos 3) 8080 (pos 0) ∷ reused (pos 3) ∷ socketed (pos 3) ∷ []

abbrev select_server : SelectServer
select_server = record {
  port = 8080;
  listensock = record { sockfd = pos 3 };
  fd_array = garbage;
  trace = built_trace;
  fault = false;
}

abbrev poll_server : PollServer
poll_server = record {
  port = 8080;
  listensock = record { sockfd = pos 3 };
  fd_events = stale_slots;
  trace = built_trace;
}

-- The last connection is closed, the one before it is open.
history_test :
    replay (
      closed (pos 6)
      ∷ accepted (pos 3) (pos 6)
      ∷ received (pos 5) (pos 2)
      ∷ accepted (pos 3) (pos 5)
      ∷ built_trace)
    ≡ add (pos 5) (of_list [])
unfolding replay on_event add remove
history_test = refl
