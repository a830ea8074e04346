-- ===== src/UdpClient/Conversation.antt =====
-- A client and a server with no datagram lost between them.
use linux_cpp.Common.{
  ℕ, zero, suc, ◌≤◌, ◌<◌, ◌≡◌, refl, ◌∙◌, ap, List, [], ◌∷◌, ◌++◌, map, true, pos, Bytes, Option,
  some, length, take, take-all, arith, ltb, if◌then◌else◌,
}
use linux_cpp.Os.{Received}
use linux_cpp.Socket.{c_string, filled}
use linux_cpp.Socket.CString.{Solid, c_string-whole}
use linux_cpp.UdpServer.{room}
use linux_cpp.UdpClient.{Talk, sendto_error, heard, talk}

-- What recvfrom gives for a datagram, of which it cuts off what the buffer has no room for.
abbrev pub arrives : Bytes → Received
arrives s = record { n = pos (length (take room s)); buffer = take room s }

-- What a server gives back for a datagram, when `func` makes its replies.
abbrev pub reply : (Bytes → Bytes) → Bytes → Bytes
reply func line = let r = arrives line in func (c_string (filled r.n r.buffer))

abbrev pub answer : (Bytes → Bytes) → Bytes → Received
answer func line = arrives (reply func line)

-- Lines and replies that are not empty, have no zero byte and fit into the buffers of 1023 bytes.
pub data Fair (func : Bytes → Bytes) : List Bytes → Type 0 where
  no_more : Fair func []
  fair :
      {line : Bytes} {lines : List Bytes}
      → 0 < length line
      → length line ≤ room
      → Solid line
      → 0 < length (func line)
      → length (func line) ≤ room
      → Solid (func line)
      → Fair func lines
      → Fair func (line ∷ lines)

heard-whole :
    (line s : Bytes) (t : Talk)
    → 0 < length s
    → Solid s
    → heard line (record { n = pos (length s); buffer = s }) (some t)
      ≡ some (record { lines = line ∷ t.lines; printed = s ∷ t.printed; ending = t.ending })
unfolding heard
heard-whole line s t l r =
    let full : ltb 0 (length s) ≡ true = ground (arith, l) in
    rw full (
      ap
        (λ (x : Bytes).
          some (record { lines = line ∷ t.lines; printed = x ∷ t.printed; ending = t.ending }))
        (c_string-whole s r))

heard-answer :
    (func : Bytes → Bytes) (line : Bytes) (t : Talk)
    → length line ≤ room
    → Solid line
    → 0 < length (func line)
    → length (func line) ≤ room
    → Solid (func line)
    → heard line (answer func line) (some t)
      ≡ some (record { lines = line ∷ t.lines; printed = func line ∷ t.printed; ending = t.ending })
heard-answer func line t w h l m r =
    ap (λ q. heard line (arrives (func (c_string (filled (pos (length q)) q)))) (some t))
      (take-all room line w)
    ∙ ap (λ q. heard line (arrives (func q)) (some t)) (c_string-whole line h)
    ∙ ap (λ q. heard line (record { n = pos (length q); buffer = q }) (some t))
        (take-all room (func line) m)
    ∙ heard-whole line (func line) t l r

-- From the `k`th on, getline gives these lines and then the end of the input.
pub data Typed (getline : ℕ → Bytes) : ℕ → List Bytes → Type 0 where
  finished : {k : ℕ} → getline k ≡ [] → Typed getline k []
  typed :
      {k : ℕ} {line : Bytes} {lines : List Bytes}
      → getline k ≡ line
      → Typed getline (suc k) lines
      → Typed getline k (line ∷ lines)

module _ (func : Bytes → Bytes) (getline : ℕ → Bytes) where
  -- The client's loop when sendto sends all and no datagram is lost.
  abbrev pub conversation : (fuel k : ℕ) → Option Talk
  conversation = talk getline (λ k line. pos (length line)) (λ k line. answer func line)

  abbrev turn : Bytes → Option Talk → Option Talk
  turn line rest =
      if ltb 0 (length line)
      then heard line (answer func line) rest
      else some (record { lines = line ∷ []; printed = []; ending = sendto_error })

  turn-full :
      (line : Bytes) (rest : Option Talk)
      → 0 < length line
      → turn line rest ≡ heard line (answer func line) rest
  turn-full line rest h = let full : ltb 0 (length line) ≡ true = ground (arith, h) in rw full refl

  -- When the lines are not empty, neither are their replies, all are free of zero bytes, the lines
  -- fit into the server's buffer of 1023 bytes and the replies into the client's, no datagram is lost, and the fuel is enough for a
  -- turn for each line and one more: the loop ends, at the end of the input, by the error of the
  -- empty datagram; it has sent each line and has printed, in order, what the server's function makes
  -- of each.
  pub conversation-Fair :
      (lines : List Bytes) (fuel k : ℕ)
      → Typed getline k lines
      → Fair func lines
      → length lines < fuel
      → conversation fuel k
        ≡ some
            (record { lines = lines ++ [] ∷ []; printed = map func lines; ending = sendto_error })
  unfolding talk
  conversation-Fair lines zero k y f h = absurd (omega arith)
  conversation-Fair [] (suc fuel) k (finished e) f h =
      ap (λ x. turn x (conversation fuel (suc k))) e
  conversation-Fair (line ∷ lines) (suc fuel) k (typed e y) (fair l w p r m q f) h =
      ap (λ x. turn x (conversation fuel (suc k))) e
      ∙ turn-full line (conversation fuel (suc k)) l
      ∙ ap (heard line (answer func line)) (conversation-Fair lines fuel (suc k) y f (omega arith))
      ∙ heard-answer func line
          (record { lines = lines ++ [] ∷ []; printed = map func lines; ending = sendto_error }) w p
          r m q
