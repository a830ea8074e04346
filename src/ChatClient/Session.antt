-- ===== src/ChatClient/Session.antt =====
-- A session of the chat's client.
use linux_cpp.Common.{
  ℕ, zero, suc, ◌<◌, ◌≡◌, refl, ◌∙◌, ap, ap₂, List, [], ◌∷◌, ◌++◌, true, false, ℤ, pos, ltz, ltb,
  Bytes, Option, none, some, map_option, length, take, arith, if◌then◌else◌,
}
use linux_cpp.Os.{Received}
use linux_cpp.Socket.{c_string, filled}
use linux_cpp.Socket.CString.{Solid, c_string_fixed}
use linux_cpp.UdpClient.Conversation.{Typed, finished, typed}
use linux_cpp.ChatClient.{init_client, recv_message, send_message, closed, joining, join, main}

-- From the `k`th on, recvfrom gives these datagrams, none of them empty, and then fails or gives an
-- empty one.
pub data Arrive (recvfrom : ℕ → Received) : ℕ → List Bytes → Type 0 where
  ends : {k : ℕ} → ltz (pos 0) (recvfrom k).n ≡ false → Arrive recvfrom k []
  arrives :
      {k : ℕ} {text : Bytes} {texts : List Bytes}
      → (recvfrom k).n ≡ pos (length text)
      → take (length text) (recvfrom k).buffer ≡ text
      → 0 < length text
      → Solid text
      → Arrive recvfrom (suc k) texts
      → Arrive recvfrom k (text ∷ texts)

-- None of the lines is empty.
pub data Full : List Bytes → Type 0 where
  no_more : Full []
  full : {line : Bytes} {lines : List Bytes} → 0 < length line → Full lines → Full (line ∷ lines)

-- A turn of `RecvMessage`.
abbrev turn : Received → Option (List Bytes) → Option (List Bytes)
turn answer rest =
    if ltz (pos 0) answer.n
    then map_option (λ texts. c_string (filled answer.n answer.buffer) ∷ texts) rest
    else some []

turn-some :
    (answer : Received) (text : Bytes) (texts : List Bytes)
    → answer.n ≡ pos (length text)
    → take (length text) answer.buffer ≡ text
    → 0 < length text
    → Solid text
    → turn answer (some texts) ≡ some (text ∷ texts)
turn-some answer text texts e b l h =
    let not_empty : ltb 0 (length text) ≡ true = ground (arith, l) in
    rw (e, not_empty)
      (ap (λ x. some (c_string x ∷ texts)) b
        ∙ ap (λ (x : Bytes). some (x ∷ texts)) (c_string_fixed text h))

recv_message-Arrive :
    (recvfrom : ℕ → Received) (texts : List Bytes) (fuel k : ℕ)
    → Arrive recvfrom k texts
    → length texts < fuel
    → recv_message recvfrom fuel k ≡ some texts
unfolding recv_message
recv_message-Arrive recvfrom texts zero k a h = absurd (omega (arith, h))
recv_message-Arrive recvfrom [] (suc fuel) k (ends e) h = rw e refl
recv_message-Arrive recvfrom (text ∷ texts) (suc fuel) k (arrives e b l s a) h =
    ap (turn (recvfrom k)) (recv_message-Arrive recvfrom texts fuel (suc k) a (omega (arith, h)))
    ∙ turn-some (recvfrom k) text texts e b l s

-- A turn of `SendMessage`, when sendto sends all.
abbrev send_turn : Bytes → Option (List Bytes) → Option (List Bytes)
send_turn line rest =
    if ltb 0 (length line) then map_option (λ lines. line ∷ lines) rest else some (line ∷ [])

send_turn-full :
    (line : Bytes) (rest : Option (List Bytes))
    → 0 < length line
    → send_turn line rest ≡ map_option (λ lines. line ∷ lines) rest
send_turn-full line rest h =
    let not_empty : ltb 0 (length line) ≡ true = ground (arith, h) in rw not_empty refl

send_message-Typed :
    (getline : ℕ → Bytes) (lines : List Bytes) (fuel k : ℕ)
    → Typed getline k lines
    → Full lines
    → length lines < fuel
    → send_message getline (λ i line. pos (length line)) fuel k ≡ some (lines ++ [] ∷ [])
unfolding send_message
send_message-Typed getline lines zero k y f h = absurd (omega (arith, h))
send_message-Typed getline [] (suc fuel) k (finished e) f h =
    ap (λ x. send_turn x (send_message getline (λ i l. pos (length l)) fuel (suc k))) e
send_message-Typed getline (line ∷ lines) (suc fuel) k (typed e y) (full l f) h =
    ap (λ x. send_turn x (send_message getline (λ i m. pos (length m)) fuel (suc k))) e
    ∙ send_turn-full line _ l
    ∙ ap (map_option (λ rest. line ∷ rest))
        (send_message-Typed getline lines fuel (suc k) y f (omega (arith, h)))

init_client-pos : (sockfd : ℕ) → init_client (pos sockfd) ≡ some (pos sockfd)
unfolding init_client
init_client-pos sockfd = ground arith

-- A client whose socket is made, which types lines that are not empty, all of them sent whole, and
-- then ends its input, and which gets datagrams that are not empty and have no zero byte, until a
-- recvfrom fails or gives an empty one: with fuel for a turn for each line and each datagram and one
-- more, both loops end and `main` joins them; the client has printed the datagrams and sent the lines
-- and an empty datagram, each in order.
pub main-Arrive :
    (recvfrom : ℕ → Received) (getline : ℕ → Bytes) (texts lines : List Bytes) (sockfd fuel : ℕ)
    → Arrive recvfrom 0 texts
    → Typed getline 0 lines
    → Full lines
    → length texts < fuel
    → length lines < fuel
    → main recvfrom getline (λ i line. pos (length line)) (pos sockfd) fuel
      ≡ closed (pos sockfd) texts (lines ++ [] ∷ [])
unfolding main init_client join
main-Arrive recvfrom getline texts lines sockfd fuel a y f h g =
    ap
      (λ q.
        join q (recv_message recvfrom fuel 0)
          (send_message getline (λ i line. pos (length line)) fuel 0))
      (init_client-pos sockfd)
    ∙ ap₂ (join (some (pos sockfd))) (recv_message-Arrive recvfrom texts fuel 0 a h)
        (send_message-Typed getline lines fuel 0 y f g)

-- As long as each recvfrom gives a datagram that is not empty, `main` does not end, whatever is sent.
recv_message-positive :
    (recvfrom : ℕ → Received) (fuel k : ℕ)
    → ((i : ℕ) → ltz (pos 0) (recvfrom i).n ≡ true)
    → recv_message recvfrom fuel k ≡ none
unfolding recv_message
recv_message-positive recvfrom zero k h = refl
recv_message-positive recvfrom (suc fuel) k h =
    rw (h k, recv_message-positive recvfrom fuel (suc k) h) refl

pub main-joining :
    (recvfrom : ℕ → Received) (getline : ℕ → Bytes) (sendto : ℕ → Bytes → ℤ) (sockfd fuel : ℕ)
    → ((i : ℕ) → ltz (pos 0) (recvfrom i).n ≡ true)
    → main recvfrom getline sendto (pos sockfd) fuel ≡ joining
unfolding main init_client join
main-joining recvfrom getline sendto sockfd fuel h =
    ap (λ q. join q (recv_message recvfrom fuel 0) (send_message getline sendto fuel 0))
      (init_client-pos sockfd)
    ∙ ap (λ r. join (some (pos sockfd)) r (send_message getline sendto fuel 0))
        (recv_message-positive recvfrom fuel 0 h)
