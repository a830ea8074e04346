-- ===== src/Reactor/Setup.antt =====
-- IO/2.epollserver_v2/Epoller.hpp, Listener.hpp and Main.cc: what the constructors make. The file of
-- `Epoller` declares neither `_epfd` nor the exit status: the status is an argument.
use linux_cpp.Common.{ℕ, ◌∷◌, ◌≡◌, refl, if◌then◌else◌, false, ℤ, pos, ltz, arith}
use linux_cpp.Os.{Os, Trace, epoll_created}
use linux_cpp.Socket.{TcpSocket, M, Outcome, done, exited, ◌>>=◌, return, build_listen_socket}
use linux_cpp.Socket.Build.{build_listen_socket_done}

abbrev pub gsize : ℕ
gsize = 128

pub record Epoller : Type 0 where
  pub epfd : ℤ

pub record Listener : Type 0 where
  pub port : ℕ
  pub listensock : TcpSocket

pub construct_epoller : Os → (epoll_create_error : ℕ) → M Epoller
construct_epoller os epoll_create_error t =
    let epfd = os.epoll_create t gsize in
    if ltz epfd (pos 0)
    then exited epoll_create_error (epoll_created epfd ∷ t)
    else done (record { epfd = epfd }) (epoll_created epfd ∷ t)

pub construct_listener : Os → ℕ → M Listener
construct_listener os port = do
  sock ← build_listen_socket os port
  return (record { port = port; listensock = sock })

pub listen_sockfd : Listener → ℤ
listen_sockfd l = l.listensock.sockfd

-- A listener that was made has its port and a descriptor that is not negative.
pub construct_listener-done :
    (os : Os) (port : ℕ) (t t' : Trace) (l : Listener)
    → construct_listener os port t ≡ done l t'
    → (l.port ≡ port) × (ltz (listen_sockfd l) (pos 0) ≡ false)
unfolding construct_listener listen_sockfd
construct_listener-done os port t t' l e = go (build_listen_socket os port t) refl
  where
    go :
        (r : Outcome TcpSocket)
        → build_listen_socket os port t ≡ r
        → (l.port ≡ port) × (ltz l.listensock.sockfd (pos 0) ≡ false)
    go (done sock t'') b =
        let made = build_listen_socket_done os port t t'' sock b in
        let e' = rw (b, ◌>>=◌) at e in (cc, ground (arith, made.0, e'))
    go (exited status t'') b = absurd (let e' = rw (b, ◌>>=◌) at e in cc)
