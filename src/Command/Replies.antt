-- ===== src/Command/Replies.antt =====
-- What the command server answers to commands that each arrive whole.
use mathlib.Core.List.{reverse, reverse-cons, append_assoc}
use linux_cpp.Common.{
  ◌<◌, ◌≡◌, refl, sym, ◌∙◌, ap, List, [], ◌∷◌, ◌++◌, map, true, pos, Bytes, Option, length, arith,
  ltb, Bool-cases, inl, inr,
}
use linux_cpp.Os.{Received}
use linux_cpp.Socket.CString.{Solid, c_string-whole}
use linux_cpp.Command.{Action, opened, replied, left, safe_check, excute, handler_command}

-- A text that arrives whole.
abbrev pub whole : Bytes → Received
whole s = record { n = pos (length s); buffer = s }

-- Not empty, with no zero byte, and short enough for the buffers of both sides.
pub record Fits (s : Bytes) : Type 0 where
  pub full : 0 < length s
  pub short : length s < 1024
  pub solid : Solid s

pub data All (P : Bytes → Type 0) : List Bytes → Type 0 where
  no_more : All P []
  also : {s : Bytes} {texts : List Bytes} → P s → All P texts → All P (s ∷ texts)

-- The texts sent, newest first.
abbrev pub replies_sent : List Action → List Bytes
replies_sent [] = []
replies_sent (opened cmd ∷ done) = replies_sent done
replies_sent (replied text ∷ done) = text ∷ replies_sent done
replies_sent (left ∷ done) = replies_sent done

module _ (popen : Bytes → Option (List Bytes)) where
  -- The reply of `Excute`.
  abbrev pub reply : Bytes → Bytes
  reply cmd = (excute popen cmd []).0

  excute-replies_sent :
      (cmd : Bytes) (done : List Action)
      → ((excute popen cmd done).0 ≡ reply cmd)
        × (replies_sent (excute popen cmd done).1 ≡ replies_sent done)
  unfolding excute
  excute-replies_sent cmd done = elim (Bool-cases (safe_check cmd)) [
    | inl e ↦ rw e (refl, refl)
    | inr e ↦ rw e (refl, refl)
  ]

  handler_command-whole :
      (cmd : Bytes) (rs : List Received) (done : List Action)
      → Fits cmd
      → handler_command popen (whole cmd ∷ rs) done
        ≡ handler_command popen rs (replied (reply cmd) ∷ (excute popen cmd done).1)
  unfolding handler_command
  handler_command-whole cmd rs done f =
      let full : ltb 0 (length cmd) ≡ true = ground (arith, f.full) in
      rw (full, c_string-whole cmd f.solid, (excute-replies_sent cmd done).0) refl

  pub handler_command-replies_sent :
      (lines : List Bytes) (done : List Action)
      → All Fits lines
      → replies_sent (handler_command popen (map whole lines) done)
        ≡ reverse (map reply lines) ++ replies_sent done
  unfolding handler_command
  handler_command-replies_sent [] done h = refl
  handler_command-replies_sent (cmd ∷ lines) done (also f h) =
      ap replies_sent (handler_command-whole cmd (map whole lines) done f)
      ∙ handler_command-replies_sent lines (replied (reply cmd) ∷ (excute popen cmd done).1) h
      ∙ ap (λ t. reverse (map reply lines) ++ reply cmd ∷ t) (excute-replies_sent cmd done).1
      ∙ sym (append_assoc (reverse (map reply lines)) (reply cmd ∷ []) (replies_sent done))
      ∙ ap (λ l. l ++ replies_sent done) (sym (reverse-cons (reply cmd) (map reply lines)))
