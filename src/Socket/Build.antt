-- ===== src/Socket/Build.antt =====
-- `BuildListenSocket`: which calls it makes, in which order, and how it ends.
use linux_cpp.Common.{
  ℕ, sym, ◌∙◌, ◌≡◌, ◌∷◌, false, ℤ, pos, ltz, arith, if◌then◌else◌, Bool-cases, inl, inr,
}
use linux_cpp.Os.{Os, Trace, socketed, reused, bound, listened, accepts, closes, opens}
use linux_cpp.Socket.{Outcome, done, exited, TcpSocket, ◌>>=◌, build_listen_socket}

-- The calls of a listening socket that was built on `fd`, newest first.
abbrev pub built : Os → ℕ → ℤ → Trace → Trace
built os port fd t =
    let t₁ : Trace = reused fd ∷ socketed fd ∷ t in
    let t₂ : Trace = bound fd port (os.bind t₁ fd port) ∷ t₁ in
    listened fd 8 (os.listen t₂ fd 8) ∷ t₂

-- What the socket's construction ends in, by the first call that fails: status 1 for socket, 2 for
-- bind, 3 for listen.
abbrev pub Ends : Os → ℕ → Trace → Outcome TcpSocket → Type 0
Ends os port t r =
    let fd = os.socket t in
    let t₁ : Trace = reused fd ∷ socketed fd ∷ t in
    let b = os.bind t₁ fd port in
    let t₂ : Trace = bound fd port b ∷ t₁ in
    let l = os.listen t₂ fd 8 in
    r ≡ (
      if ltz fd (pos 0)
      then exited 1 (socketed fd ∷ t)
      else if ltz b (pos 0)
      then exited 2 t₂
      else if ltz l (pos 0)
      then exited 3 (listened fd 8 l ∷ t₂)
      else done (record { sockfd = fd }) (listened fd 8 l ∷ t₂))

-- Building a listening socket calls socket, setsockopt, bind and listen in that order, on the
-- descriptor that socket gave out, and ends the process with status 1, 2 or 3 at the first of
-- socket, bind and listen that fails.
pub build_listen_socket-Ends :
    (os : Os) (port : ℕ) (t : Trace) → Ends os port t (build_listen_socket os port t)
unfolding build_listen_socket
build_listen_socket-Ends os port t =
    let fd = os.socket t in
    let t₁ : Trace = reused fd ∷ socketed fd ∷ t in
    let b = os.bind t₁ fd port in
    let t₂ : Trace = bound fd port b ∷ t₁ in
    elim (Bool-cases (ltz fd (pos 0))) [
      | inl e ↦ rw (e, ◌>>=◌)
      | inr e ↦
          rw (e, ◌>>=◌)
            (elim (Bool-cases (ltz b (pos 0))) [
              | inl e' ↦ rw (e', ◌>>=◌)
              | inr e' ↦
                  rw (e', ◌>>=◌)
                    (elim (Bool-cases (ltz (os.listen t₂ fd 8) (pos 0))) [
                      | inl e'' ↦ rw (e'', ◌>>=◌)
                      | inr e'' ↦ rw (e'', ◌>>=◌)
                    ])
            ])
    ]

-- A socket that was built has a descriptor that is not negative, and no descriptor was accepted
-- or closed meanwhile.
pub build_listen_socket_done :
    (os : Os) (port : ℕ) (t t' : Trace) (sock : TcpSocket)
    → build_listen_socket os port t ≡ done sock t'
    → (ltz sock.sockfd (pos 0) ≡ false)
      × ((fd : ℤ) → accepts fd t' ≡ accepts fd t)
      × ((fd : ℤ) → closes fd t' ≡ closes fd t)
      × ((fd : ℤ) → opens fd t' ≡ opens fd t)
unfolding accepts closes opens
build_listen_socket_done os port t t' sock e =
    let ends = sym (build_listen_socket-Ends os port t) ∙ e in
    (ground arith, (λ fd. ground arith), (λ fd. ground arith), (λ fd. ground arith))

-- Its descriptor is the one that socket gave out.
pub build_listen_socket-socket :
    (os : Os) (port : ℕ) (t t' : Trace) (sock : TcpSocket)
    → build_listen_socket os port t ≡ done sock t'
    → sock.sockfd ≡ os.socket t
build_listen_socket-socket os port t t' sock e =
    let ends = sym (build_listen_socket-Ends os port t) ∙ e in ground arith
