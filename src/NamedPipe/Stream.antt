-- ===== src/NamedPipe/Stream.antt =====
-- The stream of bytes from the client of 3.fifo to its server.
use linux_cpp.Common.{
  ℕ, suc, zero, ◌≤◌, ◌<◌, ◌≡◌, refl, ◌∙◌, ap, List, [], ◌∷◌, Bool, false, ◌||◌, ℤ, pos, negsuc, ltz,
  leb, Bytes, Option, some, length, take, arith,
}
use linux_cpp.Os.{Received}
use linux_cpp.Socket.{c_string}
use linux_cpp.Socket.CString.{Solid, c_string_fixed}
use linux_cpp.NamedPipe.{
  read_named_pipe, client_quit, Served, heard, serve_once, serve, server_main, construct,
  open_named_pipe, destruct, closed, unlinked, opened, made, read_mode, client_writes,
}

-- Reads, from the `k`th on, that give these pieces and then the end of the stream, at the latest in
-- the `rounds`th of them. A read gives at least one byte and at most 4096.
pub data Delivers (read : ℕ → Received) : (rounds k : ℕ) → List Bytes → Type 0 where
  ends : {rounds k : ℕ} → (read k).n ≡ pos 0 → Delivers read (suc rounds) k []
  gives :
      {rounds k : ℕ} {piece : Bytes} {pieces : List Bytes}
      → (read k).n ≡ pos (length piece)
      → 0 < length piece
      → length piece ≤ 4096
      → take (length piece) (read k).buffer ≡ piece
      → Solid piece
      → Delivers read rounds (suc k) pieces
      → Delivers read (suc rounds) k (piece ∷ pieces)

-- Whether some piece fills the buffer.
abbrev pub some_full : List Bytes → Bool
some_full [] = false
some_full (piece ∷ pieces) = leb 4096 (length piece) || some_full pieces

read_named_pipe_some :
    (answer : Received) (out : Bytes) (n : ℕ)
    → answer.n ≡ pos n
    → 0 < n
    → read_named_pipe answer out
      ≡ record { n = pos n; out = c_string (take n answer.buffer); fault = leb 4096 n }
unfolding read_named_pipe
read_named_pipe_some answer out n e h = rw e (ground arith)

read_named_pipe_none :
    (answer : Received) (out : Bytes)
    → answer.n ≡ pos 0
    → read_named_pipe answer out ≡ record { n = pos 0; out = out; fault = false }
unfolding read_named_pipe
read_named_pipe_none answer out e = rw e refl

serve_once_none :
    (rest : Option Served)
    → serve_once (record { n = pos 0; out = []; fault = false }) rest
      ≡ some (record { said = []; ending = client_quit; fault = false })
unfolding serve_once
serve_once_none rest = refl

serve_once_some :
    (n : ℕ) (out : Bytes) (b : Bool) (s : Served)
    → 0 < n
    → serve_once (record { n = pos n; out = out; fault = b }) (some s)
      ≡ some (record { said = out ∷ s.said; ending = s.ending; fault = b || s.fault })
unfolding serve_once heard
serve_once_some n out b s h = ground arith

-- The server prints the pieces that its reads give.
serve-pieces :
    (read : ℕ → Received) {rounds k : ℕ} {pieces : List Bytes}
    → Delivers read rounds k pieces
    → serve read rounds k
      ≡ some (record { said = pieces; ending = client_quit; fault = some_full pieces })
unfolding serve
serve-pieces read {rounds = zero} d = elim d [ ]
serve-pieces read {rounds = suc rounds} {k = k} (ends e) =
    ap (λ r. serve_once r (serve read rounds (suc k))) (read_named_pipe_none (read k) [] e)
    ∙ serve_once_none (serve read rounds (suc k))
serve-pieces read {rounds = suc rounds} {k = k}
      (gives {piece = piece} {pieces = pieces} e l u b p d) =
    (λ i.
      serve_once (read_named_pipe_some (read k) [] (length piece) e l i) (serve-pieces read d i))
    ∙ serve_once_some (length piece) (c_string (take (length piece) (read k).buffer))
        (leb 4096 (length piece)) _ l
    ∙ ap
        (λ t. some (record {
          said = t ∷ pieces;
          ending = client_quit;
          fault = leb 4096 (length piece) || some_full pieces;
        }))
        (ap c_string b ∙ c_string_fixed piece p)

server_main-opened :
    (mkfifo opening : ℤ) (read : ℕ → Received) (fuel : ℕ)
    → ltz opening (pos 0) ≡ false
    → server_main mkfifo opening read fuel
      ≡ (serve read fuel 0, closed opening ∷ unlinked ∷ opened read_mode opening ∷ made mkfifo ∷ [])
unfolding server_main construct open_named_pipe destruct
server_main-opened mkfifo (pos n) read fuel h = rw h refl
server_main-opened mkfifo (negsuc n) read fuel h = ground (arith, h)

-- When the fifo opens, the server's reads give the client's text in pieces of 1 to 4096 bytes, none
-- of them zero, then the end, and the fuel is enough for these reads, the server's loop ends as for a
-- client that has quit. It has printed the client's text, in order and with nothing left out, and has
-- written past its buffer if and only if some piece has 4096 bytes. Whether or not mkfifo failed,
-- the server ends by removing the fifo and closing its descriptor.
pub server_main-client_writes :
    (mkfifo opening : ℤ) (read : ℕ → Received) (fuel : ℕ) (pieces messages : List Bytes)
    → ltz opening (pos 0) ≡ false
    → Delivers read fuel 0 pieces
    → client_writes pieces ≡ client_writes messages
    → (s : Served) × ((server_main mkfifo opening read fuel).0 ≡ some s)
      × (s.ending ≡ client_quit)
      × (client_writes s.said ≡ client_writes messages)
      × (s.fault ≡ some_full pieces)
      × ((server_main mkfifo opening read fuel).1
          ≡ closed opening ∷ unlinked ∷ opened read_mode opening ∷ made mkfifo ∷ [])
server_main-client_writes mkfifo opening read fuel pieces messages h d e =
    let m = server_main-opened mkfifo opening read fuel h in
    (
      record { said = pieces; ending = client_quit; fault = some_full pieces },
      ap (λ r. r.0) m ∙ serve-pieces read d,
      refl,
      e,
      refl,
      ap (λ r. r.1) m,
    )
