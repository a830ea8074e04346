-- ===== src/ChatServer/Setup.antt =====
-- The constructor, `InitServer` and the destructor of Socket/3. chat_server/UdpServer.hpp, which
-- beside the function that they store are those of Socket/2. dict_server, and the first lines of
-- UdpServerMain.cc.
use linux_cpp.Common.{
  ℕ, ◌+◌, ◌≡◌, refl, ◌∙◌, ap, [], ◌∷◌, ℤ, pos, negsuc, ltz, if◌then◌else◌, true, false, Bool-cases,
  inl, inr, arith,
}
use linux_cpp.Os.{Os, Trace, socketed, bound, closed}
use linux_cpp.Socket.{M, done, exited, socket_error, bind_error}
use linux_cpp.UdpServer.{UdpServer, gsockfd}
use linux_cpp.UdpServer.Replies.{datagrams, replies}

pub construct : (localport : ℕ) → UdpServer
construct localport = record { sockfd = gsockfd; localport = localport; isrunning = false }

pub init_server : Os → UdpServer → M UdpServer
init_server os s t =
    let sockfd = os.socket t in
    let t₁ : Trace = socketed sockfd ∷ t in
    if ltz sockfd (pos 0)
    then exited socket_error t₁
    else (let n = os.bind t₁ sockfd s.localport in
        if ltz n (pos 0)
        then exited bind_error (bound sockfd s.localport n ∷ t₁)
        else done (record s { sockfd = sockfd }) (bound sockfd s.localport n ∷ t₁))

pub destroy : UdpServer → Trace → Trace
destroy s t = if ltz gsockfd s.sockfd then (closed s.sockfd ∷ t) else t

-- `std::make_unique<UdpServer>(message_route, port)` and `InitServer`
pub set_up : Os → ℕ → M UdpServer
unfolding construct init_server
set_up os port = init_server os (construct port)

not_negative : (fd : ℤ) → ltz fd (pos 0) ≡ false → ltz gsockfd fd ≡ true
not_negative (pos n) h = refl
not_negative (negsuc n) h = absurd (ground (arith, h))

-- A server that was set up has a descriptor that is not negative, its port, and has neither got
-- nor sent a datagram; its destructor closes the descriptor, once.
pub set_up-destroy :
    (os : Os) (port : ℕ) (s : UdpServer) (t t' : Trace)
    → set_up os port [] ≡ done s t
    → (s.sockfd ≡ os.socket [])
      × (s.localport ≡ port)
      × (datagrams t + replies t ≡ 0)
      × (destroy s t' ≡ closed s.sockfd ∷ t')
unfolding set_up construct init_server destroy datagrams replies
set_up-destroy os port s t t' e = elim (Bool-cases (ltz (os.socket []) (pos 0))) [
  | inl lost ↦ absurd (let e' = rw lost at e in cc)
  | inr made ↦
      elim (Bool-cases (ltz (os.bind (socketed (os.socket []) ∷ []) (os.socket []) port) (pos 0))) [
        | inl unbound ↦ absurd (let e' = rw (made, unbound) at e in cc)
        | inr named ↦
            (let e' = rw (made, named) at e in
              let same : s.sockfd ≡ os.socket [] = cc in
              let is_open : ltz gsockfd s.sockfd ≡ true =
                ap (ltz gsockfd) same ∙ not_negative (os.socket []) made in
              (same, cc, ground (arith, e'), rw is_open refl))
      ]
]
