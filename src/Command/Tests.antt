-- ===== src/Command/Tests.antt =====
-- A client that sends one command of the list, one that is not, and leaves.
use linux_cpp.Common.{◌+◌, ◌≡◌, ◌↔◌, refl, List, [], ◌∷◌, true, pos, Bytes, codes, Option, some}
use linux_cpp.Os.{Received}
use linux_cpp.Command.{safe_command, safe_check, opened, replied, left, handler_command, excute}
use linux_cpp.Command.Guard.{
  Begins, AllSafe, served, replies, safe_check_iff, handler_command-AllSafe,
}

abbrev pipe : Bytes → Option (List Bytes)
pipe cmd = some (codes "a\n" ∷ codes "b\n" ∷ [])

abbrev session : List Received
session =
    record { n = pos 2; buffer = codes "ls" }
    ∷ record { n = pos 2; buffer = codes "rm" }
    ∷ record { n = pos 0; buffer = [] }
    ∷ record { n = pos 2; buffer = codes "ls" }
    ∷ []

session_test :
    handler_command pipe session []
    ≡ left ∷ replied (codes "unsafe") ∷ replied (codes "a\nb\n") ∷ opened (codes "ls") ∷ []
unfolding handler_command excute safe_check
session_test = refl

safe_check_iff_example :
    (safe_check (codes "ls;rm -rf /") ≡ true) ↔ Begins safe_command (codes "ls;rm -rf /")
safe_check_iff_example = safe_check_iff (codes "ls;rm -rf /")

handler_command-AllSafe_example :
    AllSafe (handler_command pipe session [])
    × (replies (handler_command pipe session []) ≡ served session + 0)
handler_command-AllSafe_example = handler_command-AllSafe pipe session [] tt
