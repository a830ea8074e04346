-- ===== src/SelectServer/Handlers.antt =====
-- What `HandlerEvent` does with the descriptors that select reported, and `Accepter` and
-- `HandlerIO` with the table.
use linux_cpp.Common.{
  ℕ, zero, suc, ◌≡◌, ◌≢◌, refl, subst, List, ◌∷◌, true, false, ℤ, pos, eqb, ltz, get_or, set, count,
  eqb_iff, eqb_self, arith, Bool-cases, ◌⊎◌, inl, inr, Bool, if_both, if_split, not, ◌∙◌,
  Option-cases,
}
use linux_cpp.Os.{
  Os, Event, Ordinary, Trace, received, sent, closed, accepted, Extends, same, more, Extends-trans,
}
use linux_cpp.Socket.{accepter as socket_accepter}
use linux_cpp.SelectServer.{
  gdefaultfd, gnum, SelectServer, accepter, handler_io, handler_slot, handler_event_from,
  handler_event, place_after_first, echo_str, in_set, all_in_set,
}
use linux_cpp.SelectServer.InSet.{handler_event-InSet}
use linux_cpp.SelectServer.Table.{place_after_first-PlacedAfter}

-- Reads and writes go to connections that were reported, accept to the listening socket when it was.
abbrev pub Serves : (ℤ → Bool) → ℤ → Event → Type 0
Serves rfds listensock (received fd n) = (rfds fd ≡ true) × (fd ≢ listensock)
Serves rfds listensock (sent fd text) = (rfds fd ≡ true) × (fd ≢ listensock) × (text ≡ echo_str)
Serves rfds listensock (accepted l ret) = (l ≡ listensock) × (rfds l ≡ true)
Serves rfds listensock _ = Unit

accepter_cases :
    (os : Os) (s : SelectServer)
    → let fd = (os.accept s.trace s.listensock.sockfd).fd in
      let t : Trace = accepted s.listensock.sockfd fd ∷ s.trace in
      ((fds : List ℤ) × (accepter os s ≡ record s { fd_array = fds; trace = t }))
      ⊎ (accepter os s ≡ record s { trace = closed fd ∷ t })
unfolding accepter socket_accepter
accepter_cases os s =
    let fd = (os.accept s.trace s.listensock.sockfd).fd in
    elim (Bool-cases (ltz (pos 0) fd)) [
      | inr no_link ↦ inl (s.fd_array, ground arith)
      | inl link ↦ elim (Option-cases (place_after_first fd s.fd_array)) [
        | inl full ↦ inr (ground arith)
        | inr (fds, e) ↦ inl (fds, ground arith)
      ]
    ]

-- What a handler run on `s` for the set `rfds` keeps.
record Served (rfds : ℤ → Bool) (s s' : SelectServer) : Type 0 where
  calls : Extends (Serves rfds s.listensock.sockfd) s.trace s'.trace
  listens : s'.listensock ≡ s.listensock

Served-trans :
    (rfds : ℤ → Bool) (a b c : SelectServer) → Served rfds a b → Served rfds b c → Served rfds a c
Served-trans rfds a b c h k = record {
  calls =
      Extends-trans h.calls
        (subst (λ l. Extends (Serves rfds l.sockfd) b.trace c.trace) h.listens k.calls);
  listens = k.listens ∙ h.listens;
}

accepter-Served :
    (os : Os) (rfds : ℤ → Bool) (s : SelectServer)
    → rfds s.listensock.sockfd ≡ true
    → Served rfds s (accepter os s)
accepter-Served os rfds s h =
    let l = s.listensock.sockfd in
    let fd = (os.accept s.trace l).fd in
    let first : Extends (Serves rfds l) s.trace (accepted l fd ∷ s.trace) =
      more {e = accepted l fd} (refl, h) same in
    elim (accepter_cases os s) [
      | inl (fds, e) ↦ rw e (record { calls = first; listens = refl })
      | inr e ↦ rw e (record { calls = more {e = closed fd} tt first; listens = refl })
    ]

handler_io-Served :
    (os : Os) (rfds : ℤ → Bool) (i : ℕ) (s : SelectServer)
    → rfds (get_or s.fd_array i gdefaultfd) ≡ true
    → get_or s.fd_array i gdefaultfd ≢ s.listensock.sockfd
    → Served rfds s (handler_io os i s)
unfolding handler_io
handler_io-Served os rfds i s h k =
    let fd = get_or s.fd_array i gdefaultfd in
    let n = (os.recv s.trace fd 1023).n in
    let first : Extends (Serves rfds s.listensock.sockfd) s.trace (received fd n ∷ s.trace) =
      more {e = received fd n} (h, k) same in
    let close : Served rfds s (record s {
      fd_array = set s.fd_array i gdefaultfd;
      trace = closed fd ∷ received fd n ∷ s.trace;
    }) =
      record { calls = more {e = closed fd} tt first; listens = refl } in
    if_both (Served rfds s) (ltz (pos 0) n)
      (record { calls = more {e = sent fd echo_str} (h, k, refl) first; listens = refl })
      (if_both (Served rfds s) (eqb n (pos 0)) close close)

handler_slot-Served :
    (os : Os) (rfds : ℤ → Bool) (i : ℕ) (s : SelectServer)
    → Served rfds s (handler_slot os rfds i s)
unfolding handler_slot
handler_slot-Served os rfds i s =
    let fd = get_or s.fd_array i gdefaultfd in
    let keep : Served rfds s s = record { calls = same; listens = refl } in
    if_split (Served rfds s) (eqb fd gdefaultfd) (λ _. keep)
      (λ _.
        if_split (Served rfds s) (not (in_set fd)) (λ _. record { calls = same; listens = refl })
          (λ _.
            if_split (Served rfds s) (rfds fd)
              (λ ready.
                if_split (Served rfds s) (eqb s.listensock.sockfd fd)
                  (λ e. accepter-Served os rfds s (rw ((eqb_iff s.listensock.sockfd fd).0 e) ready))
                  (λ e.
                    handler_io-Served os rfds i s ready
                      (λ q. ground (arith, eqb_iff s.listensock.sockfd fd))))
              (λ _. keep)))

handler_event_from-Served :
    (os : Os) (rfds : ℤ → Bool) (rounds i : ℕ) (s : SelectServer)
    → Served rfds s (handler_event_from os rfds rounds i s)
unfolding handler_event_from
handler_event_from-Served os rfds zero i s = record { calls = same; listens = refl }
handler_event_from-Served os rfds (suc rounds) i s =
    let s' = handler_slot os rfds i s in
    Served-trans rfds s s' (handler_event_from os rfds rounds (suc i) s')
      (handler_slot-Served os rfds i s) (handler_event_from-Served os rfds rounds (suc i) s')

-- From a table of descriptors below FD_SETSIZE, on a system whose descriptors are below it and whose
-- accept never gives 0: one dispatch tests no descriptor outside the set, every receive and every send is on a descriptor that select reported and that
-- is not the listening socket, each send is the fixed reply, accept is called on the
-- listening socket and only when it was reported, the listening socket stays what it was, and the
-- table still holds descriptors below FD_SETSIZE only.
pub handler_event-Serves :
    (os : Os) (given : Ordinary gnum os) (rfds : ℤ → Bool) (s : SelectServer)
    → all_in_set s.fd_array ≡ true
    → s.fault ≡ false
    → let s' = handler_event os rfds s in
      Extends (Serves rfds s.listensock.sockfd) s.trace s'.trace
      × (s'.listensock ≡ s.listensock)
      × (s'.fault ≡ false)
      × (all_in_set s'.fd_array ≡ true)
unfolding handler_event
handler_event-Serves os given rfds s inside sound =
    let served = handler_event_from-Served os rfds gnum 0 s in
    let kept = handler_event-InSet os given rfds s (record { table = inside; sound = sound }) in
    (served.calls, served.listens, kept.sound, kept.table)

-- With the listening socket in slot 0, `Accepter` ends in one of three ways. Accept gave no
-- positive descriptor: only the call is recorded. It gave one and no slot is free: the descriptor is
-- closed at once and the table stays. It gave one and a slot is free: nothing is closed, one free
-- slot fewer is left, and the descriptor stands in the table once more.
pub accepter_lem :
    (os : Os) (s : SelectServer)
    → get_or s.fd_array 0 gdefaultfd ≢ gdefaultfd
    → let fd = (os.accept s.trace s.listensock.sockfd).fd in
      let t : Trace = accepted s.listensock.sockfd fd ∷ s.trace in
      let s' = accepter os s in
      (ltz (pos 0) fd ≡ false) × (s' ≡ record s { trace = t })
      ⊎ (ltz (pos 0) fd ≡ true)
        × (count gdefaultfd s.fd_array ≡ 0)
        × (s' ≡ record s { trace = closed fd ∷ t })
      ⊎ (ltz (pos 0) fd ≡ true)
        × (s'.trace ≡ t)
        × (suc (count gdefaultfd s'.fd_array) ≡ count gdefaultfd s.fd_array)
        × (count fd s'.fd_array ≡ suc (count fd s.fd_array))
unfolding accepter socket_accepter
accepter_lem os s first =
    let fd = (os.accept s.trace s.listensock.sockfd).fd in
    let a = place_after_first-PlacedAfter fd fd s.fd_array in
    let b = place_after_first-PlacedAfter gdefaultfd fd s.fd_array in
    let e = eqb_iff (get_or s.fd_array 0 gdefaultfd) gdefaultfd in
    let g = eqb_self fd in
    elim (Bool-cases (ltz (pos 0) fd)) [
      | inr h ↦ inl (h, ground arith)
      | inl h ↦ elim (Option-cases (place_after_first fd s.fd_array)) [
        | inl full ↦ inr (inl (h, ground (arith, b, first, e), ground arith))
        | inr (fds, free) ↦ inr (inr (h, ground arith, ground (arith, b, e), ground (arith, a, g)))
      ]
    ]
