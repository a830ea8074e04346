-- ===== src/Reactor.antt =====
-- IO/2.epollserver_v2: `Connection` with its buffers, and the table of connections of
-- `TcpServer`. A connection is on the heap: the heap is the list of all that were made, newest
-- last, and a pointer is an index of it. Handlers, addresses and the pointer to the reactor are
-- only stored, and left out.
pub mod Table
pub mod Setup
use linux_cpp.Common.{
  ℕ, List, [], ◌∷◌, ◌++◌, Bool, true, false, if◌then◌else◌, ℤ, pos, negsuc, eqb, ltz, Bytes, length,
  drop, Option, none, some,
}

abbrev pub listen_connection : ℤ
listen_connection = pos 0

abbrev pub normal_connection : ℤ
normal_connection = pos 1

pub record Connection : Type 0 where
  pub sockfd : ℤ
  pub events : ℕ
  pub type : ℤ
  pub inbuffer : Bytes
  pub outbuffer : Bytes

-- `events` and `type` are not initialised in the source.
pub construct : ℤ → Connection
construct sockfd = record {
  sockfd = sockfd;
  events = 0;
  type = listen_connection;
  inbuffer = [];
  outbuffer = [];
}

pub set_events : ℕ → Connection → Connection
set_events events conn = record conn { events = events }

pub set_connection_type : ℤ → Connection → Connection
set_connection_type type conn = record conn { type = type }

pub append_inbuffer : Bytes → Connection → Connection
append_inbuffer text conn = record conn { inbuffer = conn.inbuffer ++ text }

pub append_outbuffer : Bytes → Connection → Connection
append_outbuffer text conn = record conn { outbuffer = conn.outbuffer ++ text }

-- `erase(0, n)`: an `int` that is negative becomes a count larger than any length.
pub discard_outbuffer : ℤ → Connection → Connection
discard_outbuffer (pos n) conn = record conn { outbuffer = drop n conn.outbuffer }
discard_outbuffer (negsuc n) conn = record conn { outbuffer = [] }

-- The descriptor that `Close` closes, if it closes one.
pub close : Connection → Option ℤ
close conn = if ltz conn.sockfd (pos 0) then none else some conn.sockfd

pub record Server : Type 0 where
  pub heap : List Connection
  pub connections : List (ℤ × ℕ)

pub find : ℤ → List (ℤ × ℕ) → Option ℕ
find fd [] = none
find fd ((key, conn) ∷ connections) = if eqb key fd then some conn else find fd connections

-- `insert` of unordered_map changes nothing when the key is there.
pub insert : ℤ → ℕ → List (ℤ × ℕ) → List (ℤ × ℕ)
unfolding find
insert fd conn connections = elim (find fd connections) [
  | none ↦ (fd, conn) ∷ connections
  | some old ↦ connections
]

pub add_connection : ℤ → ℕ → Server → Server
unfolding construct set_events insert
add_connection fd events s = record {
  heap = s.heap ++ set_events events (construct fd) ∷ [];
  connections = insert fd (length s.heap) s.connections;
}

pub start : Server
start = record { heap = []; connections = [] }
