-- ===== src/Socket/Tests.antt =====
-- The listening socket on the sample operating system, and on one whose ports are taken.
use linux_cpp.Common.{◌≡◌, refl, [], ◌∷◌, pos, negsuc}
use linux_cpp.Os.{Os, socketed, reused, bound}
use linux_cpp.Os.Sample.{sample_os}
use linux_cpp.Socket.{exited, build_listen_socket, close}

abbrev busy_os : Os
busy_os = record sample_os { bind = λ t fd port. negsuc 0 }

bind_fails :
    build_listen_socket busy_os 80 []
    ≡ exited 2 (bound (pos 3) 80 (negsuc 0) ∷ reused (pos 3) ∷ socketed (pos 3) ∷ [])
unfolding build_listen_socket
bind_fails = refl

close_zero : close (record { sockfd = pos 0 }) [] ≡ []
unfolding close
close_zero = refl
