-- ===== src/Command/Guard.antt =====
-- Which commands the server runs.
use linux_cpp.Common.{
  ℕ, suc, ◌≡◌, ◌+◌, ◌↔◌, refl, List, [], ◌∷◌, ◌++◌, true, if◌then◌else◌, pos, ltz, Bytes, length,
  Option, arith, Bool-cases, inl, inr, ◌⊎◌,
}
use linux_cpp.Os.{Received}
use linux_cpp.Socket.{c_string, filled}
use linux_cpp.Command.{
  safe_command, strncmp_eq, some_prefix, safe_check, Action, opened, replied, left, excute,
  handler_command,
}

strncmp_eq-append : (cmd rest : Bytes) → strncmp_eq (length cmd) cmd (cmd ++ rest) ≡ true
unfolding strncmp_eq
strncmp_eq-append [] rest = refl
strncmp_eq-append (x ∷ cmd) rest = ground (arith, strncmp_eq-append cmd rest)

-- The converse: the text goes on from the command.
strncmp_eq-prefix :
    (cmd text : Bytes)
    → strncmp_eq (length cmd) cmd text ≡ true
    → (rest : Bytes) × (text ≡ cmd ++ rest)
unfolding strncmp_eq
strncmp_eq-prefix [] text h = (text, refl)
strncmp_eq-prefix (x ∷ cmd) [] h = absurd (ground arith)
strncmp_eq-prefix (x ∷ cmd) (y ∷ text) h =
    let found = strncmp_eq-prefix cmd text (ground arith) in (found.0, ground (arith, found.1))

-- The text begins with one of the commands.
abbrev pub Begins : List Bytes → Bytes → Type 0
Begins [] text = ⊥
Begins (cmd ∷ cmds) text = ((rest : Bytes) × (text ≡ cmd ++ rest)) ⊎ Begins cmds text

some_prefix-Begins :
    (cmds : List Bytes) (text : Bytes) → some_prefix cmds text ≡ true → Begins cmds text
unfolding some_prefix
some_prefix-Begins [] text h = cc
some_prefix-Begins (cmd ∷ cmds) text h = elim (Bool-cases (strncmp_eq (length cmd) cmd text)) [
  | inl e ↦ inl (strncmp_eq-prefix cmd text e)
  | inr e ↦ inr (some_prefix-Begins cmds text (ground arith))
]

Begins-some_prefix :
    (cmds : List Bytes) (text : Bytes) → Begins cmds text → some_prefix cmds text ≡ true
unfolding some_prefix
Begins-some_prefix [] text h = absurd h
Begins-some_prefix (cmd ∷ cmds) text (inl (rest, e)) =
    rw e (ground (arith, strncmp_eq-append cmd rest))
Begins-some_prefix (cmd ∷ cmds) text (inr h) = ground (arith, Begins-some_prefix cmds text h)

-- `SafeCheck` passes a text exactly when it begins with ls, pwd, touch, which or whoami, whatever
-- follows: "ls;rm -rf /" passes.
pub safe_check_iff : (text : Bytes) → (safe_check text ≡ true) ↔ Begins safe_command text
unfolding safe_check
safe_check_iff text = (some_prefix-Begins safe_command text, Begins-some_prefix safe_command text)

-- Each command that was run began with a command of the list.
abbrev pub AllSafe : List Action → Type 0
AllSafe [] = Unit
AllSafe (opened cmd ∷ done) = Begins safe_command cmd × AllSafe done
AllSafe (replied text ∷ done) = AllSafe done
AllSafe (left ∷ done) = AllSafe done

-- One reply for each result in front of the first that is not positive.
pub served : List Received → ℕ
served [] = 0
served (r ∷ rs) = if ltz (pos 0) r.n then suc (served rs) else 0

abbrev pub replies : List Action → ℕ
replies [] = 0
replies (replied text ∷ done) = suc (replies done)
replies (opened cmd ∷ done) = replies done
replies (left ∷ done) = replies done

module _ (popen : Bytes → Option (List Bytes)) where
  pub excute_lem :
      (cmd : Bytes) (done : List Action)
      → AllSafe done
      → AllSafe (excute popen cmd done).1 × (replies (excute popen cmd done).1 ≡ replies done)
  unfolding excute
  excute_lem cmd done h = elim (Bool-cases (safe_check cmd)) [
    | inl e ↦ rw e (((safe_check_iff cmd).0 e, h), refl)
    | inr e ↦ rw e (h, refl)
  ]

  -- Whatever a client sends, and however popen answers, each command that `HandlerCommand` runs
  -- begins with a command of the list, and the client gets one reply for each message before the
  -- first result of recv that is not positive, and none after it.
  pub handler_command-AllSafe :
      (rs : List Received) (done : List Action)
      → AllSafe done
      → AllSafe (handler_command popen rs done)
        × (replies (handler_command popen rs done) ≡ served rs + replies done)
  unfolding handler_command served
  handler_command-AllSafe [] done h = (h, omega arith)
  handler_command-AllSafe (r ∷ rs) done h =
      let cmd = c_string (filled r.n r.buffer) in
      let run = excute popen cmd done in
      let step = excute_lem cmd done h in
      let rest = handler_command-AllSafe rs (replied run.0 ∷ run.1) step.0 in
      elim (Bool-cases (ltz (pos 0) r.n)) [
        | inl e ↦ rw e (rest.0, omega (arith, rest.1, step.1))
        | inr e ↦ rw e (h, omega arith)
      ]
