-- ===== src/SelectServer/Invariant.antt =====
-- The invariant of `SelectServer`: no descriptor is lost or closed twice.
use linux_cpp.Common.{
  hit-not_positive, ltz, ℕ, zero, suc, ◌+◌, ◌<◌, ◌≤◌, ◌≡◌, ◌≢◌, refl, List, [], ℤ, pos, length,
  get_or, hit, count, count-set, if_both, get_or-set_self, ◌∙◌, ap, length-set, get_or-set_ne,
  if_split, not, eqb, eqb_iff, arith, Bool-cases, inl, inr, sym, true, false, Bool,
}
use linux_cpp.Os.{Os, Trace, Selected, accepts, closes, opens, Ordinary}
use linux_cpp.SelectServer.InSet.{
  InSet, all_in_set-Cleared, not_negative-in_set, accepter-InSet, handler_io-InSet, all_in_set-set,
  all_in_set-get_or,
}
use linux_cpp.Socket.Build.{build_listen_socket-socket, build_listen_socket_done}
use linux_cpp.Socket.{
  ◌>>=◌, build_listen_socket, done, exited, TcpSocket, Outcome, accepter as socket_accepter,
}
use linux_cpp.SelectServer.{
  gdefaultfd, gnum, in_set, all_in_set, SelectServer, accepter, handler_io, handler_slot,
  handler_event_from, handler_event, round, switch, loop, init_server, clear_from, print_debug,
  construct,
}
use linux_cpp.SelectServer.Table.{place_after_first-PlacedAfter}
use linux_cpp.SelectServer.Cleared.{clear_from_lem, Cleared, clear_from-Cleared, count-Cleared}

-- Every descriptor that accept gave out is closed or in the table, as often as it was given out; the
-- listening socket stays in slot 0.
pub record Inv (s : SelectServer) : Type 0 where
  pub size : length s.fd_array ≡ gnum
  pub in_set : InSet s
  pub first : get_or s.fd_array 0 gdefaultfd ≡ s.listensock.sockfd
  pub balanced :
      (n : ℕ)
      → accepts (pos n) s.trace + hit s.listensock.sockfd (pos n)
        ≡ closes (pos n) s.trace + count (pos n) s.fd_array
  pub replayed :
      (n : ℕ) → count (pos n) s.fd_array ≡ opens (pos n) s.trace + hit s.listensock.sockfd (pos n)

module _ (os : Os) (given : Ordinary gnum os) {s : SelectServer} (v : Inv s) where
  accepter-balanced :
      (n : ℕ)
      → let s' = accepter os s in
        accepts (pos n) s'.trace + hit s'.listensock.sockfd (pos n)
        ≡ closes (pos n) s'.trace + count (pos n) s'.fd_array
  unfolding accepter socket_accepter accepts closes
  accepter-balanced n =
      let b = v.balanced n in
      let r = os.accept s.trace s.listensock.sockfd in
      let lost = hit-not_positive r.fd n (given.accept_not_zero s.trace s.listensock.sockfd) in
      ground (arith, lost, place_after_first-PlacedAfter (pos n) r.fd s.fd_array)

  accepter-replayed :
      (n : ℕ)
      → let s' = accepter os s in
        count (pos n) s'.fd_array ≡ opens (pos n) s'.trace + hit s'.listensock.sockfd (pos n)
  unfolding accepter socket_accepter opens
  accepter-replayed n =
      let b = v.replayed n in
      let r = os.accept s.trace s.listensock.sockfd in
      let lost = hit-not_positive r.fd n (given.accept_not_zero s.trace s.listensock.sockfd) in
      ground (arith, lost, place_after_first-PlacedAfter (pos n) r.fd s.fd_array)

  accepter-Inv : Inv (accepter os s)
  unfolding accepter socket_accepter accepts closes
  accepter-Inv =
      let r = os.accept s.trace s.listensock.sockfd in
      record {
        in_set = accepter-InSet os given s v.in_set;
        size = ground (arith, v.size, place_after_first-PlacedAfter (pos 0) r.fd s.fd_array);
        first = ground (arith, v.first, place_after_first-PlacedAfter (pos 0) r.fd s.fd_array);
        balanced = accepter-balanced;
        replayed = accepter-replayed;
      }

  module _ (i : ℕ) (lt : i < gnum)
      (busy : get_or s.fd_array i gdefaultfd ≢ s.listensock.sockfd) where
    not_first : i ≢ 0
    not_first e = busy (rw e v.first)

    -- The descriptor of slot `i` is not the listening socket's.
    apart :
        (fd : ℤ)
        → eqb (get_or s.fd_array i gdefaultfd) fd ≡ true
        → eqb s.listensock.sockfd fd ≡ false
    apart fd e = elim (Bool-cases (eqb s.listensock.sockfd fd)) [
      | inl same ↦
          absurd (busy ((eqb_iff _ fd).0 e ∙ sym ((eqb_iff s.listensock.sockfd fd).0 same)))
      | inr differ ↦ differ
    ]

    handler_io-Inv : Inv (handler_io os i s)
    unfolding handler_io accepts closes opens
    handler_io-Inv =
        let fd = get_or s.fd_array i gdefaultfd in
        record {
          in_set = handler_io-InSet os given i s v.in_set;
          size = ground (arith, v.size, length-set s.fd_array i gdefaultfd);
          first =
              ground
                (arith, v.first, not_first, get_or-set_ne s.fd_array i 0 gdefaultfd gdefaultfd);
          balanced = λ n.
              ground
                (arith, v.size, v.balanced n, count-set (pos n) s.fd_array i gdefaultfd gdefaultfd);
          replayed = λ n. ground (
            arith,
            v.size,
            v.replayed n,
            apart (pos n),
            count-set (pos n) s.fd_array i gdefaultfd gdefaultfd,
          );
        }

pub handler_slot-Inv :
    (os : Os) (given : Ordinary gnum os) (rfds : ℤ → Bool) (i : ℕ) (s : SelectServer)
    → i < gnum
    → Inv s
    → Inv (handler_slot os rfds i s)
unfolding handler_slot
handler_slot-Inv os given rfds i s lt v =
    let fd = get_or s.fd_array i gdefaultfd in
    if_split Inv (eqb fd gdefaultfd) (λ _. v)
      (λ used.
        if_split Inv (not (in_set fd))
          (λ outside.
            absurd (ground (arith, all_in_set-get_or s.fd_array i v.in_set.table, used, outside)))
          (λ _.
            if_split Inv (rfds fd)
              (λ _.
                if_split Inv (eqb s.listensock.sockfd fd) (λ _. accepter-Inv os given v)
                  (λ other.
                    handler_io-Inv os given v i lt
                      (λ q. ground (arith, eqb_iff s.listensock.sockfd fd))))
              (λ _. v)))

handler_event_from-Inv :
    (os : Os) (given : Ordinary gnum os) (rfds : ℤ → Bool) (rounds i : ℕ) (s : SelectServer)
    → rounds + i ≤ gnum
    → Inv s
    → Inv (handler_event_from os rfds rounds i s)
unfolding handler_event_from
handler_event_from-Inv os given rfds zero i s le v = v
handler_event_from-Inv os given rfds (suc rounds) i s le v =
    handler_event_from-Inv os given rfds rounds (suc i) _ (omega arith)
      (handler_slot-Inv os given rfds i s (omega arith) v)

handler_event-Inv :
    (os : Os) (given : Ordinary gnum os) (rfds : ℤ → Bool) (s : SelectServer)
    → Inv s
    → Inv (handler_event os rfds s)
unfolding handler_event
handler_event-Inv os given rfds s v = handler_event_from-Inv os given rfds gnum 0 s (omega arith) v

print_debug-Inv : (s : SelectServer) → Inv s → Inv (print_debug s)
unfolding print_debug accepts closes opens
print_debug-Inv s v = record {
  in_set = record { table = v.in_set.table; sound = v.in_set.sound };
  size = v.size;
  first = v.first;
  balanced = v.balanced;
  replayed = v.replayed;
}

switch-Inv :
    (os : Os) (given : Ordinary gnum os) (answer : Selected) (s : SelectServer)
    → Inv s
    → Inv (switch os answer s)
unfolding switch
switch-Inv os given answer s v =
    if_both Inv _ v
      (if_both Inv _ v (print_debug-Inv _ (handler_event-Inv os given answer.rfds s v)))

pub round-Inv : (os : Os) (given : Ordinary gnum os) (s : SelectServer) → Inv s → Inv (round os s)
unfolding round accepts closes opens
round-Inv os given s v =
    if_split Inv (all_in_set s.fd_array)
      (λ _. switch-Inv os given _ _ (record {
        in_set = record { table = v.in_set.table; sound = v.in_set.sound };
        size = v.size;
        first = v.first;
        balanced = v.balanced;
        replayed = v.replayed;
      }))
      (λ outside. absurd (ground (arith, outside, v.in_set.table)))

pub loop-Inv :
    (os : Os) (given : Ordinary gnum os) (rounds : ℕ) (s : SelectServer)
    → Inv s
    → Inv (loop os rounds s)
unfolding loop
loop-Inv os given zero s v = v
loop-Inv os given (suc rounds) s v = loop-Inv os given rounds _ (round-Inv os given s v)

init_server-Inv :
    (s : SelectServer)
    → length s.fd_array ≡ gnum
    → ((fd : ℤ) → accepts fd s.trace ≡ 0)
    → ((fd : ℤ) → closes fd s.trace ≡ 0)
    → ((fd : ℤ) → opens fd s.trace ≡ 0)
    → in_set s.listensock.sockfd ≡ true
    → s.fault ≡ false
    → Inv (init_server s)
unfolding init_server
init_server-Inv s size a c o inside sound = record {
  in_set = record {
    table =
        all_in_set-set cleared 0 s.listensock.sockfd (ground (arith, inside))
          (all_in_set-Cleared cleared free);
    sound = sound;
  };
  size = length-set cleared 0 s.listensock.sockfd ∙ same;
  first = get_or-set_self cleared 0 s.listensock.sockfd gdefaultfd (omega (arith, same));
  balanced = λ n.
      let fd = n in
      omega (
        arith,
        a (pos fd),
        c (pos fd),
        count-set (pos fd) cleared 0 s.listensock.sockfd gdefaultfd (omega (arith, same)),
        count-Cleared fd cleared free,
        ap (λ x. hit x (pos fd)) (free 0 (omega (arith, same))),
      );
  replayed = λ n.
      let fd = n in
      omega (
        arith,
        o (pos fd),
        count-set (pos fd) cleared 0 s.listensock.sockfd gdefaultfd (omega (arith, same)),
        count-Cleared fd cleared free,
        ap (λ x. hit x (pos fd)) (free 0 (omega (arith, same))),
      );
}
  where
    cleared : List ℤ
    cleared = clear_from gnum 0 s.fd_array

    same : length cleared ≡ gnum
    same = clear_from_lem gnum 0 s.fd_array ∙ size

    free : Cleared (length cleared) cleared
    free j h =
        clear_from-Cleared gnum 0 s.fd_array (omega (arith, size)) (λ k q. absurd (omega arith)) j
          (omega (arith, same))

-- What the constructor has set up when it returns.
record Fresh (garbage : List ℤ) (s : SelectServer) : Type 0 where
  array : s.fd_array ≡ garbage
  no_accepts : (fd : ℤ) → accepts fd s.trace ≡ 0
  no_closes : (fd : ℤ) → closes fd s.trace ≡ 0
  no_opens : (fd : ℤ) → opens fd s.trace ≡ 0
  inside : in_set s.listensock.sockfd ≡ true
  sound : s.fault ≡ false

construct-Fresh :
    (os : Os) (given : Ordinary gnum os) (port : ℕ) (garbage : List ℤ) (s : SelectServer)
    (t : Trace)
    → construct os port garbage [] ≡ done s t
    → Fresh garbage s
unfolding construct accepts closes opens
construct-Fresh os given port garbage s t e = go (build_listen_socket os port []) refl
  where
    go : (r : Outcome TcpSocket) → build_listen_socket os port [] ≡ r → Fresh garbage s
    go (done sock t') b =
        let made = build_listen_socket_done os port [] t' sock b in
        let e' = rw (b, ◌>>=◌) at e in
        record {
          array = cc;
          no_accepts = λ fd. ground (arith, made.1 fd, e');
          no_closes = λ fd. ground (arith, made.2 fd, e');
          no_opens = λ fd. ground (arith, made.3 fd, e');
          inside = ground (
            arith,
            not_negative-in_set sock.sockfd made.0 (
                ap (λ fd. ltz fd (pos gnum)) (build_listen_socket-socket os port [] t' sock b)
                ∙ given.socket_below []),
            e',
          );
          sound = ground (arith, e');
        }
    go (exited status t') b = absurd (let e' = rw (b, ◌>>=◌) at e in cc)

-- On a system whose accept never gives 0 (standard input is open) and whose descriptors are below
-- FD_SETSIZE, whatever it answers otherwise: when the constructor has built the listening socket,
-- then after `InitServer` and any number of rounds of `Loop` the table has its `gnum` slots, the
-- listening socket is in slot 0, each descriptor (from 0 on) was accepted (or is the listening
-- socket) exactly as often as it was closed or stands in the table, and is in the table as often as
-- it is open (accepted and not closed after that, or the listening socket), and neither FD_SET nor
-- FD_ISSET was ever called outside the set.
pub loop_balanced :
    (os : Os) (given : Ordinary gnum os) (port : ℕ) (garbage : List ℤ) (s : SelectServer)
    (t : Trace) (rounds : ℕ)
    → length garbage ≡ gnum
    → construct os port garbage [] ≡ done s t
    → Inv (loop os rounds (init_server s))
loop_balanced os given port garbage s t rounds size e =
    let f = construct-Fresh os given port garbage s t e in
    loop-Inv os given rounds _ (
      init_server-Inv s (ap length f.array ∙ size) f.no_accepts f.no_closes f.no_opens f.inside
        f.sound)
