-- ===== src/EchoServer/Service.antt =====
-- How the echo server starts, and how it ends with its clients.
use linux_cpp.Common.{
  ℕ, zero, suc, ◌+◌, ◌≤◌, ◌<◌, ◌≡◌, inl, inr, refl, ◌∷◌, true, false, if◌then◌else◌, Bool-cases, ℤ,
  pos, negsuc, ltz, some, arith, hit, length,
}
use native.Mathlib.Decide.{dec_lt}
use linux_cpp.Os.{Os, Trace, accepts, closes, socketed, accepted, bound, received, sent, closed}
use linux_cpp.Socket.{exited}
use linux_cpp.EchoServer.{TcpServer, echo_string, construct, init_server, service, loop_once, loop}

-- On every operating system on which bind fails for a descriptor that is negative, `InitServer` of
-- a new server ends the process, with status 1 if socket fails and 2 if it succeeds: the server
-- never comes up.
pub init_server-exited :
    (os : Os) (port : ℕ) (garbage : ℤ) (t : Trace)
    → ((t' : Trace) (fd : ℕ) (p : ℕ) → ltz (os.bind t' (negsuc fd) p) (pos 0) ≡ true)
    → (status : ℕ) × (t' : Trace) × (init_server os (construct port garbage) t ≡ exited status t')
      × (status ≡ (if ltz (os.socket t) (pos 0) then 1 else 2))
unfolding init_server construct
init_server-exited os port garbage t bind_fails =
    let t₁ : Trace = socketed (os.socket t) ∷ t in
    elim (Bool-cases (ltz (os.socket t) (pos 0))) [
      | inl e ↦ (1, t₁, ground (arith, e), ground (arith, e))
      | inr e ↦ (
        2,
        bound (negsuc 0) port (os.bind t₁ (negsuc 0) port) ∷ t₁,
        ground (arith, e, bind_fails t₁ 0 port),
        ground (arith, e),
      )
    ]

-- Every client stops sending: recv fails or finds the end once `limit` calls have been made.
abbrev pub Quiets : Os → ℕ → Type 0
Quiets os limit =
    (t : Trace) (fd : ℤ) → limit ≤ length t → ltz (pos 0) (os.recv t fd 1023).n ≡ false

-- `fd` comes out of accept as often as it is closed.
pub record Balanced (n : ℕ) (t t' : Trace) : Type 0 where
  pub longer : length t ≤ length t'
  pub balance : accepts (pos n) t' + closes (pos n) t ≡ accepts (pos n) t + closes (pos n) t'

-- The service ends, and has closed its client's descriptor once.
pub record Served (sockfd : ℤ) (n : ℕ) (t t' : Trace) : Type 0 where
  pub longer : length t ≤ length t'
  pub accepted_none : accepts (pos n) t' ≡ accepts (pos n) t
  pub closed_once : closes (pos n) t' ≡ closes (pos n) t + hit sockfd (pos n)

module _ (os : Os) (limit : ℕ) (quiets : Quiets os limit) where
  -- A client that has sent something is heard before the limit.
  early : (t : Trace) (fd : ℤ) → ltz (pos 0) (os.recv t fd 1023).n ≡ true → length t < limit
  early t fd e = elim (dec_lt (length t) limit) [
    | yes h ↦ h
    | no h ↦ absurd (ground (arith, e, quiets t fd (omega arith)))
  ]

  service-Served :
      (fuel : ℕ) (sockfd : ℤ) (t : Trace)
      → 0 < fuel
      → limit < fuel + length t
      → (t' : Trace) × (service fuel os sockfd t ≡ some t') × ((n : ℕ) → Served sockfd n t t')
  unfolding service accepts closes
  service-Served zero sockfd t z h = absurd (omega arith)
  service-Served (suc fuel) sockfd t z h =
      let t₁ : Trace = received sockfd (os.recv t sockfd 1023).n ∷ t in
      elim (Bool-cases (ltz (pos 0) (os.recv t sockfd 1023).n)) [
        | inl e ↦
            let ih =
              service-Served fuel sockfd (sent sockfd echo_string ∷ t₁)
                (omega (arith, early t sockfd e)) (omega (arith, early t sockfd e)) in
            (
              ih.0,
              rw e ih.1,
              λ n. record {
                longer = omega (arith, (ih.2 n).longer);
                accepted_none = (ih.2 n).accepted_none;
                closed_once = (ih.2 n).closed_once;
              },
            )
        | inr e ↦ (
          closed sockfd ∷ t₁,
          rw e,
          λ n. record { longer = omega arith; accepted_none = refl; closed_once = omega arith },
        )
      ]

  loop_once-Balanced :
      (fuel : ℕ) (s : TcpServer) (t : Trace)
      → limit < fuel
      → (t' : Trace) × (loop_once fuel os s t ≡ some t') × ((n : ℕ) → Balanced n t t')
  unfolding loop_once accepts closes
  loop_once-Balanced fuel s t h =
      let fd = (os.accept t s.listensockfd).fd in
      let t₁ : Trace = accepted s.listensockfd fd ∷ t in
      let served = service-Served fuel fd t₁ (omega arith) (omega arith) in
      elim (Bool-cases (ltz fd (pos 0))) [
        | inl e ↦ (t₁, rw e, λ n. record { longer = omega arith; balance = ground (arith, e) })
        | inr e ↦ (
          served.0,
          rw e served.1,
          λ n. record {
            longer = omega (arith, (served.2 n).longer);
            balance = omega (arith, (served.2 n).accepted_none, (served.2 n).closed_once);
          },
        )
      ]

  -- On an operating system on which clients stop sending once `limit` calls have been made, with
  -- more fuel than that for each client, every number of turns of `Loop` comes to an end, and each
  -- descriptor was closed as often as accept gave it out.
  pub loop-Balanced :
      (fuel rounds : ℕ) (s : TcpServer) (t : Trace)
      → limit < fuel
      → (t' : Trace) × (loop fuel rounds os s t ≡ some t') × ((n : ℕ) → Balanced n t t')
  unfolding loop
  loop-Balanced fuel zero s t h =
      (t, refl, λ n. record { longer = omega arith; balance = omega arith })
  loop-Balanced fuel (suc rounds) s t h =
      let first = loop_once-Balanced fuel s t h in
      let rest = loop-Balanced fuel rounds s first.0 h in
      (
        rest.0,
        rw (first.1, loop) rest.1,
        λ n. record {
          longer = omega (arith, (first.2 n).longer, (rest.2 n).longer);
          balance = omega (arith, (first.2 n).balance, (rest.2 n).balance);
        },
      )
