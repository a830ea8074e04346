-- ===== src/ChatClient/Tests.antt =====
-- A client that types one line and gets one datagram.
use linux_cpp.Common.{ℕ, zero, suc, ◌≡◌, refl, [], ◌∷◌, pos, negsuc, Bytes, codes, get_or, length}
use linux_cpp.Os.{Received}
use linux_cpp.Socket.{c_string}
use linux_cpp.ChatClient.{closed, exited, main, init_client, join, recv_message, send_message}

abbrev sample_getline : ℕ → Bytes
sample_getline k = get_or (codes "hello" ∷ []) k []

abbrev sample_recvfrom : ℕ → Received
sample_recvfrom zero = record { n = pos 2; buffer = codes "hi" }
sample_recvfrom (suc k) = record { n = negsuc 0; buffer = [] }

session_test :
    main sample_recvfrom sample_getline (λ i line. pos (length line)) (pos 3) 2
    ≡ closed (pos 3) (codes "hi" ∷ []) (codes "hello" ∷ [] ∷ [])
unfolding main init_client join recv_message send_message c_string
session_test = refl

no_socket_test :
    main sample_recvfrom sample_getline (λ i line. pos (length line)) (negsuc 0) 2 ≡ exited 1
unfolding main init_client
no_socket_test = refl
