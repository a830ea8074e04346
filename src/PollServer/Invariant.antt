-- ===== src/PollServer/Invariant.antt =====
-- The invariant of `PollServer`: no descriptor is lost or closed twice.
use linux_cpp.Common.{
  hit-not_positive, ℕ, zero, suc, ◌+◌, ◌<◌, ◌≤◌, ◌≡◌, ◌≢◌, refl, List, [], ◌∷◌, ℤ, pos, length,
  get_or, hit, map, if_both, get_or-set_self, ◌∙◌, ap, length-set, get_or-set_ne, eqb, eqb_iff,
  arith, Bool-cases, inl, inr, sym, true, false,
}
use linux_cpp.Os.{Os, Trace, accepts, closes, opens, NotZero}
use linux_cpp.Socket.Build.{build_listen_socket_done}
use linux_cpp.Socket.{
  ◌>>=◌, build_listen_socket, done, exited, TcpSocket, Outcome, accepter as socket_accepter,
}
use linux_cpp.PollServer.{
  PollFd, free_slot, write_revents, pollin, gnum, PollServer, accepter, handler_io, handler_slot,
  handler_event_from, handler_event, round, switch, loop, init_server, clear_from, print_debug,
  construct,
}
use linux_cpp.PollServer.Table.{watches, watches-set, place_after_first-PlacedAfter}
use linux_cpp.PollServer.Cleared.{clear_from_lem, Cleared, clear_from-Cleared, watches-Cleared}

-- Every descriptor that accept gave out is closed or in the table, as often as it was not_zero out; the
-- listening socket stays in slot 0.
pub record Inv (s : PollServer) : Type 0 where
  pub size : length s.fd_events ≡ gnum
  pub first : (get_or s.fd_events 0 free_slot).fd ≡ s.listensock.sockfd
  pub balanced :
      (n : ℕ)
      → accepts (pos n) s.trace + hit s.listensock.sockfd (pos n)
        ≡ closes (pos n) s.trace + watches (pos n) s.fd_events
  pub replayed :
      (n : ℕ)
      → watches (pos n) s.fd_events ≡ opens (pos n) s.trace + hit s.listensock.sockfd (pos n)

module _ (os : Os) (not_zero : NotZero os) {s : PollServer} (v : Inv s) where
  accepter-balanced :
      (n : ℕ)
      → let s' = accepter os s in
        accepts (pos n) s'.trace + hit s'.listensock.sockfd (pos n)
        ≡ closes (pos n) s'.trace + watches (pos n) s'.fd_events
  unfolding accepter socket_accepter accepts closes
  accepter-balanced n =
      let b = v.balanced n in
      let r = os.accept s.trace s.listensock.sockfd in
      let lost = hit-not_positive r.fd n (not_zero s.trace s.listensock.sockfd) in
      ground (arith, lost, place_after_first-PlacedAfter (pos n) r.fd s.fd_events)

  accepter-replayed :
      (n : ℕ)
      → let s' = accepter os s in
        watches (pos n) s'.fd_events ≡ opens (pos n) s'.trace + hit s'.listensock.sockfd (pos n)
  unfolding accepter socket_accepter opens
  accepter-replayed n =
      let b = v.replayed n in
      let r = os.accept s.trace s.listensock.sockfd in
      let lost = hit-not_positive r.fd n (not_zero s.trace s.listensock.sockfd) in
      ground (arith, lost, place_after_first-PlacedAfter (pos n) r.fd s.fd_events)

  accepter-Inv : Inv (accepter os s)
  unfolding accepter socket_accepter accepts closes
  accepter-Inv =
      let r = os.accept s.trace s.listensock.sockfd in
      record {
        size = ground (arith, v.size, place_after_first-PlacedAfter (pos 0) r.fd s.fd_events);
        first = ground (arith, v.first, place_after_first-PlacedAfter (pos 0) r.fd s.fd_events);
        balanced = accepter-balanced;
        replayed = accepter-replayed;
      }

  module _ (i : ℕ) (lt : i < gnum)
      (busy : (get_or s.fd_events i free_slot).fd ≢ s.listensock.sockfd) where
    not_first : i ≢ 0
    not_first e = busy (rw e v.first)

    -- The descriptor of slot `i` is not the listening socket's.
    apart :
        (fd : ℤ)
        → eqb ((get_or s.fd_events i free_slot).fd) fd ≡ true
        → eqb s.listensock.sockfd fd ≡ false
    apart fd e = elim (Bool-cases (eqb s.listensock.sockfd fd)) [
      | inl same ↦
          absurd (busy ((eqb_iff _ fd).0 e ∙ sym ((eqb_iff s.listensock.sockfd fd).0 same)))
      | inr differ ↦ differ
    ]

    handler_io-Inv : Inv (handler_io os i s)
    unfolding handler_io accepts closes opens
    handler_io-Inv =
        let fd = (get_or s.fd_events i free_slot).fd in
        record {
          size = ground (arith, v.size, length-set s.fd_events i free_slot);
          first =
              ground (arith, v.first, not_first, get_or-set_ne s.fd_events i 0 free_slot free_slot);
          balanced = λ n.
              ground (arith, v.size, v.balanced n, watches-set (pos n) s.fd_events i free_slot);
          replayed = λ n. ground (
            arith,
            v.size,
            v.replayed n,
            apart (pos n),
            watches-set (pos n) s.fd_events i free_slot,
          );
        }

pub handler_slot-Inv :
    (os : Os) (not_zero : NotZero os) (i : ℕ) (s : PollServer)
    → i < gnum
    → Inv s
    → Inv (handler_slot os i s)
unfolding handler_slot
handler_slot-Inv os not_zero i s lt v =
    let fd = (get_or s.fd_events i free_slot).fd in
    ground (
      arith,
      accepter-Inv os not_zero v,
      handler_io-Inv os not_zero v i lt,
      eqb_iff s.listensock.sockfd fd,
    )

handler_event_from-Inv :
    (os : Os) (not_zero : NotZero os) (rounds i : ℕ) (s : PollServer)
    → rounds + i ≤ gnum
    → Inv s
    → Inv (handler_event_from os rounds i s)
unfolding handler_event_from
handler_event_from-Inv os not_zero zero i s le v = v
handler_event_from-Inv os not_zero (suc rounds) i s le v =
    handler_event_from-Inv os not_zero rounds (suc i) _ (omega arith)
      (handler_slot-Inv os not_zero i s (omega arith) v)

handler_event-Inv :
    (os : Os) (not_zero : NotZero os) (s : PollServer) → Inv s → Inv (handler_event os s)
unfolding handler_event
handler_event-Inv os not_zero s v = handler_event_from-Inv os not_zero gnum 0 s (omega arith) v

print_debug-Inv : (s : PollServer) → Inv s → Inv (print_debug s)
unfolding print_debug accepts closes opens
print_debug-Inv s v = record {
  size = v.size;
  first = v.first;
  balanced = v.balanced;
  replayed = v.replayed;
}

switch-Inv :
    (os : Os) (not_zero : NotZero os) (n : ℤ) (s : PollServer) → Inv s → Inv (switch os n s)
unfolding switch
switch-Inv os not_zero n s v =
    if_both Inv _ v (if_both Inv _ v (print_debug-Inv _ (handler_event-Inv os not_zero s v)))

-- poll changes neither the slots nor their descriptors.
write_revents_lem :
    (revents : ℕ → ℕ) (i : ℕ) (xs : List PollFd) (fd : ℤ)
    → (length (write_revents revents i xs) ≡ length xs)
      × ((get_or (write_revents revents i xs) 0 free_slot).fd ≡ (get_or xs 0 free_slot).fd)
      × (watches fd (write_revents revents i xs) ≡ watches fd xs)
unfolding write_revents
write_revents_lem revents i [] fd = (refl, refl, refl)
write_revents_lem revents i (x ∷ xs) fd =
    let rest = write_revents_lem revents (suc i) xs fd in
    (ap suc rest.0, refl, ap (λ (k : ℕ). hit x.fd fd + k) rest.2)

pub round-Inv : (os : Os) (not_zero : NotZero os) (s : PollServer) → Inv s → Inv (round os s)
unfolding round accepts closes opens
round-Inv os not_zero s v =
    let answer = os.poll s.trace (map (λ (p : PollFd). (p.fd, p.events)) s.fd_events) in
    let kept = write_revents_lem answer.revents 0 s.fd_events in
    switch-Inv os not_zero _ _ (record {
      size = (kept (pos 0)).0 ∙ v.size;
      first = (kept (pos 0)).1 ∙ v.first;
      balanced = λ n. omega (arith, v.balanced n, kept (pos n));
      replayed = λ n. omega (arith, v.replayed n, kept (pos n));
    })

pub loop-Inv :
    (os : Os) (not_zero : NotZero os) (rounds : ℕ) (s : PollServer) → Inv s → Inv (loop os rounds s)
unfolding loop
loop-Inv os not_zero zero s v = v
loop-Inv os not_zero (suc rounds) s v = loop-Inv os not_zero rounds _ (round-Inv os not_zero s v)

init_server-Inv :
    (s : PollServer)
    → length s.fd_events ≡ gnum
    → ((fd : ℤ) → accepts fd s.trace ≡ 0)
    → ((fd : ℤ) → closes fd s.trace ≡ 0)
    → ((fd : ℤ) → opens fd s.trace ≡ 0)
    → Inv (init_server s)
unfolding init_server
init_server-Inv s size a c o = record {
  size = length-set cleared 0 _ ∙ same;
  first =
      ap (λ (p : PollFd). p.fd) (get_or-set_self cleared 0 slot free_slot (omega (arith, same)));
  balanced = λ n.
      let fd = n in
      omega (
        arith,
        a (pos fd),
        c (pos fd),
        watches-set (pos fd) cleared 0 slot (omega (arith, same)),
        watches-Cleared fd cleared free,
        ap (λ x. hit x (pos fd)) (free 0 (omega (arith, same))),
      );
  replayed = λ n.
      let fd = n in
      omega (
        arith,
        o (pos fd),
        watches-set (pos fd) cleared 0 slot (omega (arith, same)),
        watches-Cleared fd cleared free,
        ap (λ x. hit x (pos fd)) (free 0 (omega (arith, same))),
      );
}
  where
    cleared : List PollFd
    cleared = clear_from gnum 0 s.fd_events

    slot : PollFd
    slot = record (get_or cleared 0 free_slot) { fd = s.listensock.sockfd; events = pollin }

    same : length cleared ≡ gnum
    same = clear_from_lem gnum 0 s.fd_events ∙ size

    free : Cleared (length cleared) cleared
    free j h =
        clear_from-Cleared gnum 0 s.fd_events (omega (arith, size)) (λ k q. absurd (omega arith)) j
          (omega (arith, same))

-- What the constructor has set up when it returns.
record Fresh (garbage : List PollFd) (s : PollServer) : Type 0 where
  array : s.fd_events ≡ garbage
  no_accepts : (fd : ℤ) → accepts fd s.trace ≡ 0
  no_closes : (fd : ℤ) → closes fd s.trace ≡ 0
  no_opens : (fd : ℤ) → opens fd s.trace ≡ 0

construct-Fresh :
    (os : Os) (port : ℕ) (garbage : List PollFd) (s : PollServer) (t : Trace)
    → construct os port garbage [] ≡ done s t
    → Fresh garbage s
unfolding construct accepts closes opens
construct-Fresh os port garbage s t e = go (build_listen_socket os port []) refl
  where
    go : (r : Outcome TcpSocket) → build_listen_socket os port [] ≡ r → Fresh garbage s
    go (done sock t') b =
        let made = build_listen_socket_done os port [] t' sock b in
        let e' = rw (b, ◌>>=◌) at e in
        record {
          array = cc;
          no_accepts = λ fd. ground (arith, made.1 fd, e');
          no_closes = λ fd. ground (arith, made.2 fd, e');
          no_opens = λ fd. ground (arith, made.3 fd, e');
        }
    go (exited status t') b = absurd (let e' = rw (b, ◌>>=◌) at e in cc)

-- On a system whose accept never gives 0 (standard input is open), whatever it answers otherwise:
-- when the constructor has built the listening socket, then after `InitServer` and any number of
-- rounds of `Loop` the table has its `gnum` slots, the listening socket is in slot 0, and each
-- descriptor (from 0 on) was accepted (or is the listening socket) exactly as often as it was closed
-- or stands in the table, and is in the table as often as it is open: accepted and not closed after
-- that (or the listening socket).
pub loop_watches :
    (os : Os) (not_zero : NotZero os) (port : ℕ) (garbage : List PollFd) (s : PollServer)
    (t : Trace) (rounds : ℕ)
    → length garbage ≡ gnum
    → construct os port garbage [] ≡ done s t
    → Inv (loop os rounds (init_server s))
loop_watches os not_zero port garbage s t rounds size e =
    let f = construct-Fresh os port garbage s t e in
    loop-Inv os not_zero rounds _
      (init_server-Inv s (ap length f.array ∙ size) f.no_accepts f.no_closes f.no_opens)
