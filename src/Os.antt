-- ===== src/Os.antt =====
-- The system calls of the servers. The operating system answers a call from the calls made so far
-- (newest first) and the arguments, so that any behaviour of it is one value of `Os`.
pub mod Sample
use linux_cpp.Common.{
  ◌≢◌, ltz, pos, ℕ, zero, suc, ◌+◌, ◌-◌, ◌≡◌, List, [], ◌∷◌, Bool, true, false, if◌then◌else◌, ℤ,
  eqb, Bytes, hit,
}

-- struct sockaddr_in, in host byte order
pub record SockAddr : Type 0 where
  pub sin_addr : ℕ
  pub sin_port : ℕ

pub data CtlOp : Type 0 where
  ctl_add ctl_del : CtlOp

-- A call with its arguments and its result.
pub data Event : Type 0 where
  socketed : (ret : ℤ) → Event
  reused : (fd : ℤ) → Event
  bound : (fd : ℤ) → (port : ℕ) → (ret : ℤ) → Event
  listened : (fd : ℤ) → (backlog : ℕ) → (ret : ℤ) → Event
  connected : (fd : ℤ) → (peer : SockAddr) → (ret : ℤ) → Event
  accepted : (listensock ret : ℤ) → Event
  received : (fd n : ℤ) → Event
  sent : (fd : ℤ) → Bytes → Event
  sent_to : (fd : ℤ) → Bytes → (peer : SockAddr) → Event
  closed : (fd : ℤ) → Event
  waited : (n : ℤ) → Event
  controlled : CtlOp → (fd : ℤ) → (ret : ℤ) → Event
  epoll_created : (ret : ℤ) → Event
  printed : List ℤ → Event

abbrev pub Trace : Type 0
Trace = List Event

pub record Accepted : Type 0 where
  pub fd : ℤ
  pub client : SockAddr

pub record Received : Type 0 where
  pub n : ℤ
  pub buffer : Bytes

pub record ReceivedFrom : Type 0 where
  pub n : ℤ
  pub buffer : Bytes
  pub peer : SockAddr

pub record Selected : Type 0 where
  pub n : ℤ
  pub rfds : ℤ → Bool

-- poll(2) writes only `revents`, here by the index of the slot.
pub record Polled : Type 0 where
  pub n : ℤ
  pub revents : ℕ → ℕ

pub record EpollEvent : Type 0 where
  pub fd : ℤ
  pub events : ℕ

-- The result, and the array of events as the call leaves it.
pub record EpollWaited : Type 0 where
  pub n : ℤ
  pub revs : List EpollEvent

pub record Os : Type 0 where
  pub socket : Trace → ℤ
  pub bind : Trace → ℤ → ℕ → ℤ
  pub listen : Trace → ℤ → ℕ → ℤ
  pub connect : Trace → ℤ → SockAddr → ℤ
  pub inet_pton : Bytes → ℕ
  pub accept : Trace → ℤ → Accepted
  pub recv : Trace → ℤ → ℕ → Received
  pub recvfrom : Trace → ℤ → ℕ → ReceivedFrom
  pub send : Trace → ℤ → Bytes → ℤ
  pub select : Trace → ℤ → (ℤ → Bool) → Selected
  pub poll : Trace → List (ℤ × ℕ) → Polled
  pub epoll_create : Trace → ℕ → ℤ
  pub epoll_ctl : Trace → CtlOp → ℤ → ℤ
  pub epoll_wait : Trace → ℤ → ℕ → EpollWaited

-- How often `fd` came out of accept, and how often it was closed.
unfoldable pub accepts : ℤ → Trace → ℕ
accepts fd [] = 0
accepts fd (accepted l r ∷ t) = hit r fd + accepts fd t
accepts fd (_ ∷ t) = accepts fd t

unfoldable pub closes : ℤ → Trace → ℕ
closes fd [] = 0
closes fd (closed x ∷ t) = hit x fd + closes fd t
closes fd (_ ∷ t) = closes fd t

-- How often `fd` is open after these calls: a close takes back one accept that came before it.
unfoldable pub opens : ℤ → Trace → ℕ
opens fd [] = 0
opens fd (accepted l r ∷ t) = hit r fd + opens fd t
opens fd (closed x ∷ t) = opens fd t - hit x fd
opens fd (_ ∷ t) = opens fd t

-- The calls made since `old` all satisfy `P`.
pub data Extends (P : Event → Type 0) (old : Trace) : Trace → Type 0 where
  same : Extends P old old
  more : {e : Event} {t : Trace} → P e → Extends P old t → Extends P old (e ∷ t)

pub Extends-trans :
    {P : Event → Type 0} {a b c : Trace} → Extends P a b → Extends P b c → Extends P a c
Extends-trans h same = h
Extends-trans h (more p k) = more p (Extends-trans h k)

-- A process whose standard input is open: accept, which gives the lowest free descriptor, never gives
-- 0.
abbrev pub NotZero : Os → Type 0
NotZero os = (t : Trace) (l : ℤ) → (os.accept t l).fd ≢ pos 0

-- Such a process that may have `limit` descriptors (RLIMIT_NOFILE), all of them below it.
pub record Ordinary (limit : ℕ) (os : Os) : Type 0 where
  pub accept_not_zero : NotZero os
  pub accept_below : (t : Trace) (l : ℤ) → ltz (os.accept t l).fd (pos limit) ≡ true
  pub socket_below : (t : Trace) → ltz (os.socket t) (pos limit) ≡ true
