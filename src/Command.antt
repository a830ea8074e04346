-- ===== src/Command.antt =====
-- Socket/5.command_server/Command.hpp: the remote command server. popen is the function `popen` of
-- a command to what fgets reads from it, chunk by chunk, or to nothing when it fails.
pub mod Guard
pub mod Replies
mod Tests
use linux_cpp.Common.{
  ℕ, zero, suc, List, [], ◌∷◌, ◌++◌, Bool, true, false, if◌then◌else◌, ◌||◌, ◌==◌, ℤ, pos, negsuc,
  ltz, eqb, Bytes, codes, length, Option, none, some,
}
use linux_cpp.Os.{Received}
use linux_cpp.Socket.{c_string, filled}

-- `_safe_command`, in the order of std::set
abbrev pub safe_command : List Bytes
safe_command = codes "ls" ∷ codes "pwd" ∷ codes "touch" ∷ codes "which" ∷ codes "whoami" ∷ []

-- `strncmp(a, b, n) == 0` on C strings: the end of a list is its NUL.
pub strncmp_eq : ℕ → Bytes → Bytes → Bool
strncmp_eq zero a b = true
strncmp_eq (suc n) [] [] = true
strncmp_eq (suc n) [] (y ∷ b) = false
strncmp_eq (suc n) (x ∷ a) [] = false
strncmp_eq (suc n) (x ∷ a) (y ∷ b) = if x == y then strncmp_eq n a b else false

-- The loop of `SafeCheck`.
pub some_prefix : List Bytes → Bytes → Bool
unfolding strncmp_eq
some_prefix [] cmdstr = false
some_prefix (cmd ∷ cmds) cmdstr = strncmp_eq (length cmd) cmd cmdstr || some_prefix cmds cmdstr

unfoldable pub safe_check : Bytes → Bool
unfolding some_prefix
safe_check cmdstr = some_prefix safe_command cmdstr

-- What the server does for a client, newest first.
pub data Action : Type 0 where
  opened : (command : Bytes) → Action
  replied : Bytes → Action
  left : Action

-- `result += line` for each line of the pipe; each line is a C string.
pub collect_lines : Bytes → List Bytes → Bytes
unfolding c_string
collect_lines result [] = result
collect_lines result (line ∷ lines) = collect_lines (result ++ c_string line) lines

abbrev pub or_success : Bytes → Bytes
or_success [] = codes "success"
or_success (b ∷ bs) = b ∷ bs

module _ (popen : Bytes → Option (List Bytes)) where
  -- `Excute`: the reply and what was done.
  unfoldable pub excute : Bytes → List Action → Bytes × List Action
  unfolding safe_check collect_lines
  excute cmdstr done =
      if safe_check cmdstr
      then (
        elim (popen cmdstr) [
          | some lines ↦ or_success (collect_lines [] lines)
          | none ↦ codes "execute error"
        ],
        opened cmdstr ∷ done,
      )
      else (codes "unsafe", done)

  -- `HandlerCommand` on the results of recv, in order. It returns at the first that is not
  -- positive; with the results at an end it still waits in recv.
  pub handler_command : List Received → List Action → List Action
  unfolding excute c_string
  handler_command [] done = done
  handler_command (r ∷ rs) done =
      if ltz (pos 0) r.n
      then (let (result, done') = excute (c_string (filled r.n r.buffer)) done in
          handler_command rs (replied result ∷ done'))
      else (left ∷ done)
