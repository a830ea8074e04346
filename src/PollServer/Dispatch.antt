-- ===== src/PollServer/Dispatch.antt =====
-- One dispatch of `PollServer`: who is served, and that a connection accepted in it is not.
use linux_cpp.Common.{
  ℕ, zero, suc, ◌≤◌, ◌≡◌, ◌≢◌, refl, sym, ◌∙◌, ap, List, [], ◌∷◌, true, false, ℤ, pos, eqb, ltz,
  get_or, set, eqb_iff, arith, Bool-cases, if_split, Option-cases, ◌⊎◌, inl, inr, some,
  get_or-set_ne,
}
use linux_cpp.Os.{Os, Event, Trace, received, sent, closed, accepted, Extends, same, more}
use linux_cpp.Socket.{accepter as socket_accepter}
use linux_cpp.PollServer.{
  PollFd, free_slot, pollin, gdefaultfd, gnum, PollServer, accepter, handler_io, handler_slot,
  handler_event_from, handler_event, place, place_after_first, echo_str, readable,
}

-- The slot `i` of the table, free beyond its end.
abbrev pub slot : List PollFd → ℕ → PollFd
slot xs i = get_or xs i free_slot

-- Descriptor `fd` stood in a slot that poll reported as readable, and is not the listening socket.
abbrev pub Reported : PollServer → ℤ → Type 0
Reported start fd =
    (i : ℕ) × ((slot start.fd_events i).fd ≡ fd)
    × (readable (slot start.fd_events i) ≡ true)
    × (fd ≢ start.listensock.sockfd)

abbrev pub Serves : PollServer → Event → Type 0
Serves start (received fd n) = Reported start fd
Serves start (sent fd text) = Reported start fd × (text ≡ echo_str)
Serves start (accepted l ret) = l ≡ start.listensock.sockfd
Serves start _ = Unit

-- A free slot is not readable: poll reports nothing for a negative descriptor.
abbrev pub Quiet : List PollFd → Type 0
Quiet xs = (j : ℕ) → (eqb (slot xs j).fd gdefaultfd ≡ false) ⊎ (readable (slot xs j) ≡ false)

-- A slot stays, or was free and takes the descriptor.
abbrev Moved : ℤ → PollFd → PollFd → Type 0
Moved sockfd x y =
    (y ≡ x) ⊎ (eqb x.fd gdefaultfd ≡ true) × (y ≡ record x { fd = sockfd; events = pollin })

place-Moved :
    (sockfd : ℤ) (xs ys : List PollFd)
    → place sockfd xs ≡ some ys
    → (j : ℕ) → Moved sockfd (slot xs j) (slot ys j)
unfolding place
place-Moved sockfd [] ys e j = absurd (ground arith)
place-Moved sockfd (x ∷ xs) [] e j = absurd (ground arith)
place-Moved sockfd (x ∷ xs) (y ∷ ys) e zero = ground arith
place-Moved sockfd (x ∷ xs) (y ∷ ys) e (suc j) = elim (Bool-cases (eqb x.fd gdefaultfd)) [
  | inl free ↦ let e' : ys ≡ xs = ground arith in inl (ap (λ l. slot l j) e')
  | inr taken ↦ place-Moved sockfd xs ys (ground arith) j
]

place_after_first-Moved :
    (sockfd : ℤ) (xs ys : List PollFd)
    → place_after_first sockfd xs ≡ some ys
    → (j : ℕ) → Moved sockfd (slot xs j) (slot ys j)
unfolding place_after_first
place_after_first-Moved sockfd [] ys e j = absurd (ground arith)
place_after_first-Moved sockfd (x ∷ xs) [] e j = absurd (ground arith)
place_after_first-Moved sockfd (x ∷ xs) (y ∷ ys) e zero = ground arith
place_after_first-Moved sockfd (x ∷ xs) (y ∷ ys) e (suc j) =
    place-Moved sockfd xs ys (ground arith) j

-- How far a dispatch that began in `start` has come, with the slots from `i` on still to visit:
-- each is as it was at the start or not readable.
record Run (start : PollServer) (i : ℕ) (s : PollServer) : Type 0 where
  calls : Extends (Serves start) start.trace s.trace
  listens : s.listensock ≡ start.listensock
  settled :
      (j : ℕ)
      → i ≤ j
      → (slot s.fd_events j ≡ slot start.fd_events j) ⊎ (readable (slot s.fd_events j) ≡ false)
  quiet : Quiet s.fd_events

set-Quiet :
    (xs : List PollFd) (i j : ℕ)
    → (eqb (slot xs j).fd gdefaultfd ≡ false) ⊎ (readable (slot xs j) ≡ false)
    → (eqb (slot (set xs i free_slot) j).fd gdefaultfd ≡ false)
      ⊎ (readable (slot (set xs i free_slot) j) ≡ false)
set-Quiet [] i j h = h
set-Quiet (x ∷ xs) zero zero h = inr refl
set-Quiet (x ∷ xs) zero (suc j) h = h
set-Quiet (x ∷ xs) (suc i) zero h = h
set-Quiet (x ∷ xs) (suc i) (suc j) h = set-Quiet xs i j h

module _ (os : Os) (start s : PollServer) (i : ℕ) (r : Run start i s) where
  skip-Run : Run start (suc i) s
  skip-Run = record {
    calls = r.calls;
    listens = r.listens;
    settled = λ j h. r.settled j (omega arith);
    quiet = r.quiet;
  }

  accepter_cases :
      let fd = (os.accept s.trace s.listensock.sockfd).fd in
      let t : Trace = accepted s.listensock.sockfd fd ∷ s.trace in
      (ltz (pos 0) fd ≡ true)
        × ((xs : List PollFd) × (place_after_first fd s.fd_events ≡ some xs)
            × (accepter os s ≡ record s { fd_events = xs; trace = t }))
      ⊎ (accepter os s ≡ record s { trace = closed fd ∷ t })
      ⊎ (accepter os s ≡ record s { trace = t })
  unfolding accepter socket_accepter
  accepter_cases =
      let fd = (os.accept s.trace s.listensock.sockfd).fd in
      elim (Bool-cases (ltz (pos 0) fd)) [
        | inr no_link ↦ inr (inr (ground arith))
        | inl link ↦ elim (Option-cases (place_after_first fd s.fd_events)) [
          | inl full ↦ inr (inl (ground arith))
          | inr (fds, e) ↦ inl (link, (fds, e, ground arith))
        ]
      ]

  accepter-Run : Run start (suc i) (accepter os s)
  accepter-Run =
      let fd = (os.accept s.trace s.listensock.sockfd).fd in
      let first : Extends (Serves start) start.trace (accepted s.listensock.sockfd fd ∷ s.trace) =
        more {e = accepted s.listensock.sockfd fd} (ap (λ l. l.sockfd) r.listens) r.calls in
      elim accepter_cases [
        | inl (link, (xs, e, q)) ↦ rw q (record {
          calls = first;
          listens = r.listens;
          settled = λ j h.
              ground (arith, r.settled j, r.quiet j, place_after_first-Moved fd s.fd_events xs e j);
          quiet = λ j. ground (arith, r.quiet j, place_after_first-Moved fd s.fd_events xs e j);
        })
        | inr (inl q) ↦ rw q (record {
          calls = more {e = closed fd} tt first;
          listens = r.listens;
          settled = λ j h. r.settled j (omega arith);
          quiet = r.quiet;
        })
        | inr (inr q) ↦ rw q (record {
          calls = first;
          listens = r.listens;
          settled = λ j h. r.settled j (omega arith);
          quiet = r.quiet;
        })
      ]

  module _ (ready : readable (slot s.fd_events i) ≡ true)
      (other : (slot s.fd_events i).fd ≢ s.listensock.sockfd) where
    reported : Reported start (slot s.fd_events i).fd
    reported =
        let kept : slot s.fd_events i ≡ slot start.fd_events i = ground (arith, r.settled i) in
        (
          i,
          ap (λ p. p.fd) (sym kept),
          rw kept at ready,
          λ e. other (e ∙ ap (λ l. l.sockfd) (sym r.listens)),
        )

    freed-settled :
        (j : ℕ)
        → suc i ≤ j
        → (slot (set s.fd_events i free_slot) j ≡ slot start.fd_events j)
          ⊎ (readable (slot (set s.fd_events i free_slot) j) ≡ false)
    freed-settled j h =
        ground (arith, r.settled j, get_or-set_ne s.fd_events i j free_slot free_slot)

    freed-Quiet : Quiet (set s.fd_events i free_slot)
    freed-Quiet j = set-Quiet s.fd_events i j (r.quiet j)

    handler_io-Run : Run start (suc i) (handler_io os i s)
    unfolding handler_io
    handler_io-Run =
        let fd = (slot s.fd_events i).fd in
        let n = (os.recv s.trace fd 1023).n in
        let first : Extends (Serves start) start.trace (received fd n ∷ s.trace) =
          more {e = received fd n} reported r.calls in
        let close : Run start (suc i) (record s {
          fd_events = set s.fd_events i free_slot;
          trace = closed fd ∷ received fd n ∷ s.trace;
        }) =
          record {
            calls = more {e = closed fd} tt first;
            listens = r.listens;
            settled = freed-settled;
            quiet = freed-Quiet;
          } in
        if_split (Run start (suc i)) (ltz (pos 0) n)
          (λ _. record {
            calls = more {e = sent fd echo_str} (reported, refl) first;
            listens = r.listens;
            settled = λ j h. r.settled j (omega arith);
            quiet = r.quiet;
          })
          (λ _. if_split (Run start (suc i)) (eqb n (pos 0)) (λ _. close) (λ _. close))

  handler_slot-Run : Run start (suc i) (handler_slot os i s)
  unfolding handler_slot
  handler_slot-Run =
      let p = slot s.fd_events i in
      if_split (Run start (suc i)) (eqb p.fd gdefaultfd) (λ _. skip-Run)
        (λ _.
          if_split (Run start (suc i)) (readable p)
            (λ ready.
              if_split (Run start (suc i)) (eqb s.listensock.sockfd p.fd) (λ _. accepter-Run)
                (λ e. handler_io-Run ready (λ q. ground (arith, eqb_iff s.listensock.sockfd p.fd))))
            (λ _. skip-Run))

handler_event_from-Run :
    (os : Os) (start : PollServer) (rounds i : ℕ) (s : PollServer)
    → Run start i s
    → Extends (Serves start) start.trace (handler_event_from os rounds i s).trace
unfolding handler_event_from
handler_event_from-Run os start zero i s r = r.calls
handler_event_from-Run os start (suc rounds) i s r =
    handler_event_from-Run os start rounds (suc i) _ (handler_slot-Run os start s i r)

-- Where poll reports nothing for free slots, one dispatch receives and sends only on descriptors
-- that stood in the table when it began, in a slot that poll reported as readable, and never on
-- the listening socket. So a connection that the dispatch accepts is not read from before the
-- next poll. Each send is the fixed reply, and accept is called on the listening socket only.
pub handler_event-Reported :
    (os : Os) (s : PollServer)
    → Quiet s.fd_events
    → Extends (Serves s) s.trace (handler_event os s).trace
unfolding handler_event
handler_event-Reported os s quiet =
    handler_event_from-Run os s gnum 0 s
      (record { calls = same; listens = refl; settled = λ j h. inl refl; quiet = quiet })
