-- ===== src/WatchSet/Replay.antt =====
-- The tables of the two servers against the history of their calls.
use linux_cpp.Common.{
  ℕ, ◌≡◌, ◌∙◌, sym, ap, ap₂, List, [], ℤ, pos, ◌+◌, length, count, map, hit, ◌∷◌, refl, arith,
}
use linux_cpp.Os.{Os, Trace, opens, NotZero, Ordinary}
use linux_cpp.Socket.{done}
use linux_cpp.SelectServer.{SelectServer}
use linux_cpp.SelectServer.Invariant.{loop_balanced}
use linux_cpp.SelectServer as Select
use linux_cpp.PollServer.{PollServer, PollFd}
use linux_cpp.PollServer.Invariant.{loop_watches}
use linux_cpp.PollServer as Poll
use linux_cpp.PollServer.Table.{watches}
use linux_cpp.WatchSet.{
  WatchSet, of_list, add, replay, occurrences-add, occurrences-replay, occurrences-of_list, ext,
}

-- A table in which each descriptor is as often as the history leaves it open, and the
-- listening socket.
of_list-replay :
    (sockfd : ℤ) (t : Trace) (xs : List ℤ)
    → ((n : ℕ) → count (pos n) xs ≡ opens (pos n) t + hit sockfd (pos n))
    → of_list xs ≡ add sockfd (replay t)
of_list-replay sockfd t xs h = ext _ _ (λ n. omega (
  arith,
  h n,
  occurrences-add n sockfd (replay t),
  occurrences-replay n t,
  occurrences-of_list n xs,
))

-- The set of the descriptors that the table of a server holds.
pub watched_by_select : SelectServer → WatchSet
watched_by_select s = of_list s.fd_array

pub watched_by_poll : PollServer → WatchSet
watched_by_poll s = of_list (map (λ (p : PollFd). p.fd) s.fd_events)

watches_lem : (fd : ℤ) (xs : List PollFd) → watches fd xs ≡ count fd (map (λ (p : PollFd). p.fd) xs)
watches_lem fd [] = refl
watches_lem fd (x ∷ xs) = ap (λ (k : ℕ). hit x.fd fd + k) (watches_lem fd xs)

pub select-replay :
    (os : Os) (given : Ordinary Select.gnum os) (port : ℕ) (garbage : List ℤ) (s : SelectServer)
    (t : Trace) (rounds : ℕ)
    → length garbage ≡ Select.gnum
    → Select.construct os port garbage [] ≡ done s t
    → let s' = Select.loop os rounds (Select.init_server s) in
      watched_by_select s' ≡ add s'.listensock.sockfd (replay s'.trace)
unfolding watched_by_select
select-replay os given port garbage s t rounds size e =
    of_list-replay _ _ _ (loop_balanced os given port garbage s t rounds size e).replayed

-- The same of the poll server, on a system whose accept never gives 0.
pub poll-replay :
    (os : Os) (not_zero : NotZero os) (port : ℕ) (garbage : List PollFd) (s : PollServer)
    (t : Trace) (rounds : ℕ)
    → length garbage ≡ Poll.gnum
    → Poll.construct os port garbage [] ≡ done s t
    → let s' = Poll.loop os rounds (Poll.init_server s) in
      watched_by_poll s' ≡ add s'.listensock.sockfd (replay s'.trace)
unfolding watched_by_poll
poll-replay os not_zero port garbage s t rounds size e =
    let v = loop_watches os not_zero port garbage s t rounds size e in
    of_list-replay _ _ _ (λ n. sym (watches_lem (pos n) _) ∙ v.replayed n)

-- A select server and a poll server that were built by their constructors, initialised and run for
-- any numbers of rounds, each on an operating system of its own as above, watch the same multiset of
-- descriptors when their listening sockets are the same and their histories leave the same
-- connections open, in whatever slots of the two tables these are.
pub select-poll :
    (os os' : Os) (given : Ordinary Select.gnum os) (not_zero : NotZero os') (port port' : ℕ)
    (garbage : List ℤ) (garbage' : List PollFd) (s : SelectServer) (p : PollServer) (t t' : Trace)
    (rounds rounds' : ℕ)
    → length garbage ≡ Select.gnum
    → length garbage' ≡ Poll.gnum
    → Select.construct os port garbage [] ≡ done s t
    → Poll.construct os' port' garbage' [] ≡ done p t'
    → let s' = Select.loop os rounds (Select.init_server s) in
      let p' = Poll.loop os' rounds' (Poll.init_server p) in
      s'.listensock.sockfd ≡ p'.listensock.sockfd
      → replay s'.trace ≡ replay p'.trace
      → watched_by_select s' ≡ watched_by_poll p'
select-poll os os' given not_zero port port' garbage garbage' s p t t' rounds rounds' size size' e
      e' first kept =
    select-replay os given port garbage s t rounds size e
    ∙ ap₂ add first kept
    ∙ sym (poll-replay os' not_zero port' garbage' p t' rounds' size' e')
