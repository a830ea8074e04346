-- ===== src/Reactor/Table.antt =====
-- The table of connections of IO/2.epollserver_v2/TcpServer.hpp.
use linux_cpp.Common.{
  ℕ, suc, ◌≡◌, sym, ap, List, [], ◌∷◌, true, if◌then◌else◌, ℤ, eqb, eqb_iff, length, length-append,
  Option, none, some, arith,
}
use linux_cpp.Reactor.{construct, set_events, Server, find, insert, add_connection}

-- The first answer, if it is one.
abbrev pub or_else : Option ℕ → Option ℕ → Option ℕ
or_else none y = y
or_else (some x) y = some x

find-insert :
    (fd : ℤ) (conn : ℕ) (connections : List (ℤ × ℕ)) (x : ℤ)
    → find x (insert fd conn connections)
      ≡ or_else (find x connections) (if eqb fd x then some conn else none)
unfolding insert find
find-insert fd conn connections x =
    let same : eqb fd x ≡ true → find x connections ≡ find fd connections =
      λ e. ap (λ y. find y connections) (sym ((eqb_iff fd x).0 e)) in
    ground (arith, same)

-- `AddConnection` puts one more connection on the heap, and the table has it for its descriptor
-- only if there was none before: a later connection of the same descriptor is in no table.
pub add_connection-find :
    (fd : ℤ) (events : ℕ) (s : Server) (x : ℤ)
    → (length (add_connection fd events s).heap ≡ suc (length s.heap))
      × (find x (add_connection fd events s).connections
          ≡ or_else (find x s.connections) (if eqb fd x then some (length s.heap) else none))
unfolding add_connection
add_connection-find fd events s x = (
  omega (arith, length-append s.heap (set_events events (construct fd) ∷ [])),
  find-insert fd (length s.heap) s.connections x,
)
