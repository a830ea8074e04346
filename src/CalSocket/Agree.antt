-- ===== src/CalSocket/Agree.antt =====
-- The variant of `TcpSocket` against the socket of the other servers.
use linux_cpp.Common.{
  ℕ, ◌≡◌, refl, true, false, ℤ, pos, ltz, Bytes, Bool, Bool-cases, inl, inr, Option, none, some,
}
use linux_cpp.Os.{Os, Trace, SockAddr}
use linux_cpp.Socket.{TcpSocket, Outcome, done, exited}
use linux_cpp.Socket as Shared
use linux_cpp.CalSocket.{accepter, conntecor}

-- A socket in place of its descriptor.
abbrev pub shared : ℤ × Option SockAddr × Trace → Option (TcpSocket × SockAddr) × Trace
shared (fd, none, t) = (none, t)
shared (fd, some client, t) = (some (record { sockfd = fd }, client), t)

-- The end of the process in place of false.
abbrev pub insists : Outcome Bool → Outcome (Unit {0})
insists (done true t) = done tt t
insists (done false t) = exited 2 t
insists (exited status t) = exited status t

module _ (os : Os) (sock : TcpSocket) where
  -- The accept of the variant gives the socket of the descriptor that the other gives, or nothing
  -- where that gives -1, and its connect succeeds where the other's does and ends the process with
  -- status 2 where that answers false; both make the same calls.
  pub accepter-conntecor :
      (peerip : Bytes) (peerport : ℕ) (t : Trace)
      → (accepter os sock t ≡ shared (Shared.accepter os sock t))
        × (conntecor os peerip peerport sock t
            ≡ insists (Shared.conntecor os peerip peerport sock t))
  unfolding accepter conntecor Shared.accepter Shared.conntecor
  accepter-conntecor peerip peerport t = (
    elim (Bool-cases (ltz (os.accept t sock.sockfd).fd (pos 0))) [
      | inl e ↦ rw e refl
      | inr e ↦ rw e refl
    ],
    elim (Bool-cases (
        ltz
          (os.connect t sock.sockfd
            (record { sin_addr = os.inet_pton peerip; sin_port = peerport }))
          (pos 0))) [ inl e ↦ rw e refl | inr e ↦ rw e refl ],
  )
