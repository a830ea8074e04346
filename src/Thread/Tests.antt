-- ===== src/Thread/Tests.antt =====
-- Two threads that sell the last tickets.
use linux_cpp.Common.{◌-ℤ◌, ℕ, ◌≡◌, refl, List, [], ◌∷◌, true, false, pos, codes, arith}
use linux_cpp.Thread.{
  Thread, construct, start, stop, excute_before, enters, born, State, Reach, initial, later, turn,
  starts, begins, passes, prints, loads, stores,
}
use linux_cpp.Thread.Count.{Sold}
use linux_cpp.Thread.Tickets.{Reach-Sold}

abbrev threads : List Thread
threads = construct 0 true (codes "thread-1") ∷ construct 0 false (codes "thread-2") ∷ []

-- The first thread is started and prints a number before it sells the ticket.
first_sale : (s : State) × Reach threads s
unfolding born start enters excute_before
first_sale = (
  _,
  later
      (later
        (later
          (later
            (later (later initial (starts 7 (omega arith))) (turn 0 (omega arith) (begins refl)))
            (turn 0 (omega arith) (passes refl refl)))
          (turn 0 (omega arith) (prints refl)))
        (turn 0 (omega arith) (loads refl)))
      (turn 0 (omega arith) (stores refl)),
)

Reach-Sold_example : (sold : ℕ) × Sold 2 sold first_sale.0
Reach-Sold_example = Reach-Sold first_sale.1

first_sale_test : (first_sale.0.tickets ≡ pos 9999) × (first_sale.0.printed ≡ pos 10000 ∷ [])
unfolding first_sale ◌-ℤ◌
first_sale_test = (refl, refl)

-- A thread whose flag held true before it was started is cancelled by its uninitialised id.
stop_test : (stop (construct 5 true (codes "thread-1"))).0 ≡ true
unfolding stop
stop_test = refl
