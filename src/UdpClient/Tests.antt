-- ===== src/UdpClient/Tests.antt =====
-- A line and the echo server.
use linux_cpp.Common.{ℕ, ◌≡◌, refl, List, [], ◌∷◌, Bytes, codes, get_or, some, arith}
use linux_cpp.Socket.CString.{Solid, all_positive-Solid}
use linux_cpp.UdpServer.{echo_string}
use linux_cpp.UdpClient.{sendto_error}
use linux_cpp.UdpClient.Conversation.{
  Fair, no_more, fair, finished, typed, conversation, conversation-Fair,
}

abbrev sample_lines : List Bytes
sample_lines = codes "a" ∷ []

abbrev sample_getline : ℕ → Bytes
sample_getline k = get_or sample_lines k []

sample-Fair : Fair echo_string sample_lines
unfolding echo_string Solid
sample-Fair =
    fair (omega arith) (omega arith) (omega arith, tt) (omega arith) (omega arith)
      (all_positive-Solid (echo_string (codes "a")) refl) no_more

conversation-Fair_example :
    conversation echo_string sample_getline 2 0
    ≡ some (record {
      lines = codes "a" ∷ [] ∷ [];
      printed = echo_string (codes "a") ∷ [];
      ending = sendto_error;
    })
conversation-Fair_example =
    conversation-Fair echo_string sample_getline sample_lines 2 0 (typed refl (finished refl))
      sample-Fair (omega arith)
