-- ===== src/EpollServer/Descriptors.antt =====
-- What `EpollServer` does with descriptors, and what its loop does not do.
use linux_cpp.Common.{ℕ, zero, suc, ◌+◌, ◌≡◌, List, [], ◌∷◌, ℤ, pos, negsuc, hit, arith}
use linux_cpp.Os.{
  Os, Trace, Event, EpollEvent, ctl_add, ctl_del, controlled, waited, accepts, closes, Extends,
  same, more, Extends-trans,
}
use linux_cpp.Socket.{accepter as socket_accepter}
use linux_cpp.EpollServer.{
  EpollServer, accepter, handler_io, handler_one, handler_events, handler_event, round, loop,
}

-- How often epoll_ctl was called to add `fd`, and to delete it.
pub adds : ℤ → Trace → ℕ
adds fd [] = 0
adds fd (controlled ctl_add x ret ∷ t) = hit x fd + adds fd t
adds fd (_ ∷ t) = adds fd t

pub dels : ℤ → Trace → ℕ
dels fd [] = 0
dels fd (controlled ctl_del x ret ∷ t) = hit x fd + dels fd t
dels fd (_ ∷ t) = dels fd t

-- From `t` to `t'`, accept gave out `fd` as often as epoll was told to watch it, and `fd` was
-- closed as often as epoll was told to forget it.
pub record Paired (n : ℕ) (t t' : Trace) : Type 0 where
  pub watched : accepts (pos n) t' + adds (pos n) t ≡ accepts (pos n) t + adds (pos n) t'
  pub forgotten : closes (pos n) t' + dels (pos n) t ≡ closes (pos n) t + dels (pos n) t'

Paired-trans : (n : ℕ) (a b c : Trace) → Paired n a b → Paired n b c → Paired n a c
Paired-trans n a b c h k = omega arith

accepter-Paired : (os : Os) (n : ℕ) (s : EpollServer) → Paired n s.trace (accepter os s).trace
unfolding accepter socket_accepter accepts closes adds dels
accepter-Paired os n s = ground arith

handler_io-Paired :
    (os : Os) (fd : ℤ) (n : ℕ) (s : EpollServer) → Paired n s.trace (handler_io os fd s).trace
unfolding handler_io accepts closes adds dels
handler_io-Paired os fd n s = ground arith

handler_one-Paired :
    (os : Os) (e : EpollEvent) (n : ℕ) (s : EpollServer)
    → Paired n s.trace (handler_one os e s).trace
unfolding handler_one
handler_one-Paired os e n s = ground (arith, accepter-Paired os n s, handler_io-Paired os e.fd n s)

handler_events-Paired :
    (os : Os) (count : ℕ) (es : List EpollEvent) (n : ℕ) (s : EpollServer)
    → Paired n s.trace (handler_events os count es s).trace
unfolding handler_events
handler_events-Paired os zero es n s = omega arith
handler_events-Paired os (suc count) [] n s = omega arith
handler_events-Paired os (suc count) (e ∷ es) n s =
    let s' = handler_one os e s in
    Paired-trans n s.trace s'.trace _ (handler_one-Paired os e n s)
      (handler_events-Paired os count es n s')

-- Whatever the operating system answers, `HandlerEvent` on `count` reported events adds each
-- descriptor to epoll as often as accept gave it out, and closes each descriptor as often as it
-- takes it out of epoll.
pub handler_event-Paired :
    (os : Os) (count : ℤ) (n : ℕ) (s : EpollServer)
    → Paired n s.trace (handler_event os count s).trace
unfolding handler_event
handler_event-Paired os (pos count) n s = handler_events-Paired os count s.revs n s
handler_event-Paired os (negsuc count) n s = omega arith

abbrev pub IsWait : Event → Type 0
IsWait (waited n) = Unit
IsWait _ = ⊥

round_trace :
    (os : Os) (s : EpollServer)
    → (round os s).trace ≡ waited (os.epoll_wait s.trace s.epfd 128).n ∷ s.trace
unfolding round
round_trace os s = ground arith

round-IsWait : (os : Os) (s : EpollServer) → Extends IsWait s.trace (round os s).trace
round-IsWait os s =
    rw (round_trace os s) (more {e = waited (os.epoll_wait s.trace s.epfd 128).n} tt same)

-- However long it runs and whatever epoll reports, `Loop` makes no system call but epoll_wait: no
-- connection is ever accepted, read from or answered.
pub loop-IsWait :
    (os : Os) (rounds : ℕ) (s : EpollServer) → Extends IsWait s.trace (loop os rounds s).trace
unfolding loop
loop-IsWait os zero s = same
loop-IsWait os (suc rounds) s =
    Extends-trans (round-IsWait os s) (loop-IsWait os rounds (round os s))
