-- ===== src/EchoServer/Tests.antt =====
-- An operating system on which a client sends nothing, and one whose binds fail as they should.
use linux_cpp.Common.{ℕ, ◌≡◌, refl, [], ◌∷◌, ℤ, pos, negsuc, true, some}
use linux_cpp.Os.{Os, Trace, accepted, received, closed}
use linux_cpp.Os.Sample.{sample_os}
use linux_cpp.EchoServer.{TcpServer, loop, loop_once, service}

abbrev strict_bind : Trace → ℤ → ℕ → ℤ
strict_bind t (pos fd) port = pos 0
strict_bind t (negsuc fd) port = negsuc 0

abbrev strict_os : Os
strict_os = record sample_os { bind = strict_bind }

abbrev server : TcpServer
server = record { port = 8888; sockfd = pos 3; listensockfd = pos 3; isrunning = true }

one_turn :
    loop 1 1 sample_os server []
    ≡ some (closed (pos 5) ∷ received (pos 5) (pos 0) ∷ accepted (pos 3) (pos 5) ∷ [])
unfolding loop loop_once service
one_turn = refl
