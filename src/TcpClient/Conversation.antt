-- ===== src/TcpClient/Conversation.antt =====
-- The client and the command server, when each text is read whole.
use linux_cpp.Common.{
  ℕ, zero, suc, ◌<◌, ◌≡◌, refl, ◌∙◌, ap, List, [], ◌∷◌, ◌++◌, true, false, Bytes, Option, some,
  none, length, arith, ltb,
}
use linux_cpp.Os.{Received}
use linux_cpp.Socket.CString.{c_string-whole}
use linux_cpp.UdpClient.Conversation.{Typed, finished, typed}
use linux_cpp.Command.Replies.{
  whole, Fits, All, no_more, also, replies_sent, reply, handler_command-replies_sent,
}
use linux_cpp.Command.{handler_command}
use linux_cpp.TcpClient.{Talk, waiting, heard, talk}

heard-whole :
    (line s : Bytes) (t : Talk)
    → Fits s
    → heard line (whole s) (some t)
      ≡ some (record t { lines = line ∷ t.lines; printed = s ∷ t.printed })
unfolding heard
heard-whole line s t f =
    let full : ltb 0 (length s) ≡ true = ground (arith, f.full) in
    let short : ltb (length s) 1024 ≡ true = ground (arith, f.short) in
    rw (full, short, c_string-whole s f.solid) refl

-- What recv gives the server for one write of the client: nothing for an empty one.
abbrev pub arrived : Bytes → List Received
arrived [] = []
arrived (x ∷ s) = whole (x ∷ s) ∷ []

-- What read gives the client for the texts that were sent: the first, whole.
abbrev pub first_read : List Bytes → Option Received
first_read [] = none
first_read (text ∷ texts) = some (whole text)

-- The pipe that popen opens may give something else in each turn.
module _ (popen : ℕ → Bytes → Option (List Bytes)) where
  -- The answer to a line: what `HandlerCommand` of the server sends when it has come.
  abbrev pub answer : ℕ → Bytes → Option Received
  answer k line = first_read (replies_sent (handler_command (popen k) (arrived line) []))

  -- The replies to lines that are sent from the `k`th turn on.
  abbrev pub replies : ℕ → List Bytes → List Bytes
  replies k [] = []
  replies k (line ∷ lines) = reply (popen k) line ∷ replies (suc k) lines

  answer-Fits :
      (k : ℕ) (line : Bytes) → Fits line → answer k line ≡ some (whole (reply (popen k) line))
  answer-Fits k [] f = absurd (let full = f.full in omega arith)
  answer-Fits k (x ∷ s) f =
      ap first_read (handler_command-replies_sent (popen k) ((x ∷ s) ∷ []) [] (also f no_more))

  answer-empty : (k : ℕ) → answer k [] ≡ none
  answer-empty k = ap first_read (handler_command-replies_sent (popen k) [] [] no_more)

  abbrev turn : Bytes → Option Received → Option Talk → Option Talk
  turn line read rest = elim read [
    | some r ↦ heard line r rest
    | none ↦ some (record { lines = line ∷ []; printed = []; overrun = false; ending = waiting })
  ]

  module _ (getline : ℕ → Bytes) where
    -- A client whose input ends after `lines`, joined to the server: what the client reads in a turn
    -- is the reply that `HandlerCommand` sends for the line of that turn, with what popen gives in
    -- that turn, or nothing where it sends none. When the lines and their replies are not empty,
    -- free of zero bytes and shorter than 1024 bytes and each text is read whole, then with fuel
    -- for a turn for each line and one more the client writes the lines and then an empty one,
    -- prints in order what `Excute` replies to each line, writes nothing past its buffer, and then
    -- waits in read for a reply that the server does not send.
    pub talk-Fits :
        (lines : List Bytes) (fuel k : ℕ)
        → Typed getline k lines
        → All Fits lines
        → All Fits (replies k lines)
        → length lines < fuel
        → talk getline answer fuel k
          ≡ some (record {
            lines = lines ++ [] ∷ [];
            printed = replies k lines;
            overrun = false;
            ending = waiting;
          })
    unfolding talk
    talk-Fits lines zero k y f g h = absurd (omega arith)
    talk-Fits [] (suc fuel) k (finished e) f g h =
        ap (λ x. turn x (answer k x) (talk getline answer fuel (suc k))) e
        ∙ ap (λ r. turn [] r (talk getline answer fuel (suc k))) (answer-empty k)
    talk-Fits (line ∷ lines) (suc fuel) k (typed e y) (also f fs) (also g gs) h =
        ap (λ x. turn x (answer k x) (talk getline answer fuel (suc k))) e
        ∙ ap (λ r. turn line r (talk getline answer fuel (suc k))) (answer-Fits k line f)
        ∙ ap (heard line (whole (reply (popen k) line)))
            (talk-Fits lines fuel (suc k) y fs gs (omega arith))
        ∙ heard-whole line (reply (popen k) line) _ g
