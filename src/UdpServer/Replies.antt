-- ===== src/UdpServer/Replies.antt =====
-- What a UDP server sends.
use linux_cpp.Common.{
  ℕ, zero, suc, ◌+◌, ◌≡◌, refl, [], ◌∷◌, Bytes, ltz, pos, arith, if◌then◌else◌, if_split,
}
use linux_cpp.Os.{Os, Trace, Event, received, sent_to, Extends, same, more, Extends-trans}
use linux_cpp.UdpServer.{UdpServer, round, start, room}

-- How many datagrams came in that were not empty, and how many went out.
unfoldable pub datagrams : Trace → ℕ
datagrams [] = 0
datagrams (received fd n ∷ t) = if ltz (pos 0) n then suc (datagrams t) else datagrams t
datagrams (_ ∷ t) = datagrams t

unfoldable pub replies : Trace → ℕ
replies [] = 0
replies (sent_to fd text peer ∷ t) = suc (replies t)
replies (_ ∷ t) = replies t

-- The call reads a datagram, or sends a text that satisfies `P`.
pub data Serves (P : Bytes → Type 0) : Event → Type 0 where
  reads : {fd n : _} → Serves P (received fd n)
  answers : {fd peer : _} {text : Bytes} → P text → Serves P (sent_to fd text peer)

module _ (os : Os) (func : Bytes → Bytes) (P : Bytes → Type 0)
    (ok : (text : Bytes) → P (func text)) where
  round-Serves : (s : UdpServer) (t : Trace) → Extends (Serves P) t (round os func s t)
  unfolding round
  round-Serves s t =
      let answer = os.recvfrom t s.sockfd room in
      if_split (Extends (Serves P) t) (ltz (pos 0) answer.n)
        (λ e. more (answers (ok _)) (more reads same)) (λ e. more reads same)

  pub start-Serves :
      (rounds : ℕ) (s : UdpServer) (t : Trace) → Extends (Serves P) t (start os func rounds s t).1
  unfolding start
  start-Serves zero s t = same
  start-Serves (suc rounds) s t =
      Extends-trans (round-Serves s t) (start-Serves rounds s (round os func s t))

round_balanced :
    (os : Os) (func : Bytes → Bytes) (s : UdpServer) (t : Trace)
    → replies (round os func s t) + datagrams t ≡ replies t + datagrams (round os func s t)
unfolding round replies datagrams
round_balanced os func s t = ground arith

-- For every operating system, function and number of turns, as many datagrams go out as came in
-- that were not empty: each is answered once.
pub start_balanced :
    (os : Os) (func : Bytes → Bytes) (rounds : ℕ) (s : UdpServer) (t : Trace)
    → let t' = (start os func rounds s t).1 in replies t' + datagrams t ≡ replies t + datagrams t'
unfolding start
start_balanced os func zero s t = refl
start_balanced os func (suc rounds) s t =
    omega (arith, round_balanced os func s t, start_balanced os func rounds s (round os func s t))
