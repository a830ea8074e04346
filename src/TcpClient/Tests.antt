-- ===== src/TcpClient/Tests.antt =====
-- A client that types a command of the list and one that is not, on a server whose pipes give two
-- lines.
use linux_cpp.Common.{
  ℕ, ◌≡◌, refl, List, [], ◌∷◌, ◌++◌, false, pos, negsuc, Bytes, codes, get_or, Option, some, arith,
}
use linux_cpp.Socket.CString.{all_positive-Solid}
use linux_cpp.Command.{excute, safe_check}
use linux_cpp.Command.Replies.{Fits, All, no_more, also}
use linux_cpp.UdpClient.Conversation.{finished, typed}
use linux_cpp.TcpClient.{waiting, talk, main, exited}
use linux_cpp.TcpClient.Conversation.{answer, replies, talk-Fits}

abbrev pipe : ℕ → Bytes → Option (List Bytes)
pipe k cmd = some (codes "a\n" ∷ codes "b\n" ∷ [])

abbrev sample_lines : List Bytes
sample_lines = codes "ls" ∷ codes "rm" ∷ []

abbrev sample_getline : ℕ → Bytes
sample_getline k = get_or sample_lines k []

lines-Fits : All Fits sample_lines
lines-Fits =
    also (record { full = omega arith; short = omega arith; solid = all_positive-Solid _ refl })
      (also (record { full = omega arith; short = omega arith; solid = all_positive-Solid _ refl })
        no_more)

replies-Fits : All Fits (replies pipe 0 sample_lines)
unfolding excute safe_check
replies-Fits =
    also
      (record {
        full = omega arith;
        short = omega arith;
        solid = all_positive-Solid (codes "a\nb\n") refl;
      })
      (also
        (record {
          full = omega arith;
          short = omega arith;
          solid = all_positive-Solid (codes "unsafe") refl;
        })
        no_more)

talk-Fits_example :
    talk sample_getline (answer pipe) 3 0
    ≡ some (record {
      lines = sample_lines ++ [] ∷ [];
      printed = replies pipe 0 sample_lines;
      overrun = false;
      ending = waiting;
    })
talk-Fits_example =
    talk-Fits pipe sample_getline sample_lines 3 0 (typed refl (typed refl (finished refl)))
      lines-Fits replies-Fits (omega arith)

refused_test : main sample_getline (answer pipe) (pos 3) (negsuc 0) 3 ≡ exited 2
unfolding main
refused_test = refl
