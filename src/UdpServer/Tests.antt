-- ===== src/UdpServer/Tests.antt =====
-- A turn of the echo server.
use linux_cpp.Common.{◌≡◌, refl, [], ◌∷◌, codes, pos, true}
use linux_cpp.Os.{received, sent_to}
use linux_cpp.Os.Sample.{sample_os, sample_peer}
use linux_cpp.Socket.{c_string}
use linux_cpp.UdpServer.{UdpServer, round, start, echo_string}

abbrev server : UdpServer
server = record { sockfd = pos 3; localport = 8888; isrunning = true }

echo :
    (start sample_os echo_string 1 server []).1
    ≡ sent_to (pos 3) (codes "[udp_server echo] #hi") sample_peer ∷ received (pos 3) (pos 2) ∷ []
unfolding start round c_string echo_string
echo = refl
