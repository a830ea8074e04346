-- ===== src/EpollServer/Interest.antt =====
-- What epoll is asked to watch, against what is open.
use Prim.Native.Nat.{bit_and}
use linux_cpp.Common.{
  ℕ, zero, suc, ◌+◌, ◌-◌, ◌≡◌, refl, sym, ◌∙◌, ap, List, [], ◌∷◌, ℤ, pos, negsuc, hit, eqb, eqb_iff,
  false, Bool-cases, if_both, not, ◌==◌, if◌then◌else◌, inl, inr, arith,
}
use linux_cpp.Os.{Os, Trace, EpollEvent, ctl_add, ctl_del, controlled, opens}
use linux_cpp.Socket.Build.{build_listen_socket-Ends, build_listen_socket_done}
use linux_cpp.Socket.{
  Outcome, TcpSocket, done, exited, ◌>>=◌, build_listen_socket, accepter as socket_accepter,
}
use linux_cpp.EpollServer.{
  EpollServer, construct, init_server, accepter, handler_io, handler_one, handler_events,
  handler_event, round, epollin,
}
use linux_cpp.WatchSet.{
  WatchSet, of_list, add, remove, replay, occurrences, occurrences-add, occurrences-remove,
  occurrences-replay, occurrences-of_list, ext,
}

-- The set that the calls of epoll_ctl ask for.
unfoldable pub watching : Trace → WatchSet
watching [] = of_list []
watching (controlled ctl_add fd ret ∷ t) = add fd (watching t)
watching (controlled ctl_del fd ret ∷ t) = remove fd (watching t)
watching (_ ∷ t) = watching t

-- How often `fd` is in it.
interest : ℤ → Trace → ℕ
interest fd [] = 0
interest fd (controlled ctl_add x ret ∷ t) = hit x fd + interest fd t
interest fd (controlled ctl_del x ret ∷ t) = interest fd t - hit x fd
interest fd (_ ∷ t) = interest fd t

occurrences-watching : (n : ℕ) (t : Trace) → occurrences n (watching t) ≡ interest (pos n) t
unfolding watching interest
occurrences-watching n [] = occurrences-of_list n []
occurrences-watching n (controlled ctl_add fd ret ∷ t) =
    occurrences-add n fd (watching t)
    ∙ ap (λ (k : ℕ). hit fd (pos n) + k) (occurrences-watching n t)
occurrences-watching n (controlled ctl_del fd ret ∷ t) =
    occurrences-remove n fd (watching t)
    ∙ ap (λ (k : ℕ). k - hit fd (pos n)) (occurrences-watching n t)
occurrences-watching n (_ ∷ t) = occurrences-watching n t

-- Epoll is asked for the open connections and the listening socket.
Asked : EpollServer → Type 0
Asked s =
    (n : ℕ) → interest (pos n) s.trace ≡ opens (pos n) s.trace + hit s.listensock.sockfd (pos n)

module _ (os : Os) where
  accepter-Asked : (s : EpollServer) → Asked s → Asked (accepter os s)
  unfolding Asked accepter socket_accepter interest opens
  accepter-Asked s v n = ground (arith, v n)

  handler_io-Asked :
      (fd : ℤ) (s : EpollServer)
      → eqb fd s.listensock.sockfd ≡ false
      → Asked s
      → Asked (handler_io os fd s)
  unfolding Asked handler_io interest opens
  handler_io-Asked fd s other v n = ground (
    arith,
    v n,
    other,
    eqb_iff fd s.listensock.sockfd,
    eqb_iff fd (pos n),
    eqb_iff s.listensock.sockfd (pos n),
  )

  served-Asked :
      (fd : ℤ) (s : EpollServer)
      → Asked s
      → Asked (if eqb fd s.listensock.sockfd then accepter os s else handler_io os fd s)
  served-Asked fd s v = elim (Bool-cases (eqb fd s.listensock.sockfd)) [
    | inl same ↦ rw same (accepter-Asked s v)
    | inr other ↦ rw other (handler_io-Asked fd s other v)
  ]

  handler_one-Asked : (e : EpollEvent) (s : EpollServer) → Asked s → Asked (handler_one os e s)
  unfolding handler_one
  handler_one-Asked e s v =
      if_both Asked (not (bit_and e.events epollin == 0)) (served-Asked e.fd s v) v

  handler_events-Asked :
      (count : ℕ) (es : List EpollEvent) (s : EpollServer)
      → Asked s
      → Asked (handler_events os count es s)
  unfolding handler_events
  handler_events-Asked zero es s v = v
  handler_events-Asked (suc count) [] s v = v
  handler_events-Asked (suc count) (e ∷ es) s v =
      handler_events-Asked count es _ (handler_one-Asked e s v)

  handler_event-Asked : (count : ℤ) (s : EpollServer) → Asked s → Asked (handler_event os count s)
  unfolding handler_event
  handler_event-Asked (pos count) s v = handler_events-Asked count s.revs s v
  handler_event-Asked (negsuc count) s v = v

  round-Asked : (s : EpollServer) → Asked s → Asked (round os s)
  unfolding round Asked interest opens
  round-Asked s v n = ground (arith, v n)

  -- Rounds of `Loop` and calls of `HandlerEvent` on what the last round reported, in any order.
  pub data Runs (s : EpollServer) : EpollServer → Type 0 where
    starts : Runs s s
    rounds : {s' : EpollServer} → Runs s s' → Runs s (round os s')
    handles : {s' : EpollServer} (count : ℤ) → Runs s s' → Runs s (handler_event os count s')

  Runs-Asked : {s s' : EpollServer} → Asked s → Runs s s' → Asked s'
  Runs-Asked v starts = v
  Runs-Asked v (rounds r) = round-Asked _ (Runs-Asked v r)
  Runs-Asked v (handles count r) = handler_event-Asked count _ (Runs-Asked v r)

  build_listen_socket-interest :
      (port : ℕ) (sock : TcpSocket) (t : Trace) (fd : ℤ)
      → build_listen_socket os port [] ≡ done sock t
      → interest fd t ≡ 0
  unfolding interest
  build_listen_socket-interest port sock t fd e =
      let ends = sym (build_listen_socket-Ends os port []) ∙ e in ground arith

  construct-Fresh :
      (port : ℕ) (garbage : List EpollEvent) (s : EpollServer) (t : Trace) (fd : ℤ)
      → construct os port garbage [] ≡ done s t
      → (interest fd s.trace ≡ 0) × (opens fd s.trace ≡ 0)
  unfolding construct interest opens
  construct-Fresh port garbage s t fd e = go (build_listen_socket os port []) refl
    where
      go :
          (r : Outcome TcpSocket)
          → build_listen_socket os port [] ≡ r
          → (interest fd s.trace ≡ 0) × (opens fd s.trace ≡ 0)
      go (done sock u) b =
          let made = build_listen_socket_done os port [] u sock b in
          let none_yet = build_listen_socket-interest port sock u fd b in
          let e' = rw (b, ◌>>=◌) at e in
          (ground (arith, none_yet, e'), ground (arith, made.3 fd, e'))
      go (exited status u) b = absurd (let e' = rw (b, ◌>>=◌) at e in cc)

  init_server-Asked :
      (s s' : EpollServer) (t' : Trace)
      → ((fd : ℤ) → (interest fd s.trace ≡ 0) × (opens fd s.trace ≡ 0))
      → init_server os s ≡ done s' t'
      → Asked s'
  unfolding init_server Asked interest opens
  init_server-Asked s s' t' fresh i n = ground (arith, fresh (pos n), i)

  -- Whatever the operating system answers: from a server that was constructed and initialised,
  -- after any sequence of rounds of `Loop` and calls of `HandlerEvent`, what the calls of
  -- epoll_ctl ask epoll to watch is, as a multiset of descriptors, the listening socket
  -- and the connections that the history leaves open.
  pub Runs-watching :
      (port : ℕ) (garbage : List EpollEvent) (s s' s'' : EpollServer) (t t' : Trace)
      → construct os port garbage [] ≡ done s t
      → init_server os s ≡ done s' t'
      → Runs s' s''
      → watching s''.trace ≡ add s''.listensock.sockfd (replay s''.trace)
  unfolding Asked
  Runs-watching port garbage s s' s'' t t' e i r = ext _ _ (λ n. omega (
    arith,
    Runs-Asked (init_server-Asked s s' t' (λ fd. construct-Fresh port garbage s t fd e) i) r n,
    occurrences-watching n s''.trace,
    occurrences-add n s''.listensock.sockfd (replay s''.trace),
    occurrences-replay n s''.trace,
  ))
