-- ===== src/Thread/Tickets.antt =====
-- How many tickets the threads of Thread/Main.cc sell.
use linux_cpp.Common.{
  ℕ, zero, suc, ◌+◌, ◌-◌, ◌<◌, ◌≤◌, ◌≡◌, refl, ◌∙◌, ap, sym, subst, List, [], ◌∷◌, true, false, ℤ,
  pos, ltz, ◌-ℤ◌, length, length-set, map, get_or, set, total, total-set, arith, ◌≢◌, inl, inr,
}
use linux_cpp.Thread.{
  Thread, Place, unborn, testing, passed, shown, ended, Worker, State, nobody, enters, leaves, born,
  moves, Turn, begins, passes, prints, loads, stores, returns, loaded, Step, turn, starts, joins,
  excute_before, excute_after, start, Reach, initial, later,
}
use linux_cpp.Thread.Count.{
  more, nothing, busy_at, busy, FlaggedAt, over, not_over, sub_ℕ-positive, sub_ℕ-pred, Reached,
  LoadedAt, LoadedAt-le, Printed-le, Printed, Sold, same_or_not, at-set,
}

-- A step that gives the `i`th thread, which has not been joined, the place and flag of `w`.
module _ {n sold : ℕ} {s : State} (v : Sold n sold s) where
  set-Sold :
      (i : ℕ) (w : Worker) (sold' : ℕ) (tickets : ℤ) (printed : List ℤ) (calls : ℕ)
      → i < n
      → sold ≤ sold'
      → Reached sold' tickets
      → Printed sold' printed
      → sold' + busy w + total busy s.workers ≤ length printed + busy (get_or s.workers i nobody)
      → LoadedAt sold' w.place
      → FlaggedAt w.thread.isrunning w.place
      → (w.place ≡ ended → 10000 ≤ sold')
      → ((j : ℕ) → n + j < calls → (n + j < s.calls) × (i ≢ j))
      → Sold n sold' (record {
        workers = set s.workers i w;
        tickets = tickets;
        printed = printed;
        calls = calls;
      })
  set-Sold i w sold' tickets printed calls lt le e p b h f o c = record {
    threads = omega (arith, length-set s.workers i w, v.threads);
    left_over = e;
    balance = omega (arith, total-set busy s.workers i w nobody, v.threads, lt, b);
    numbers = p;
    loads = λ j.
        at-set (λ x. LoadedAt sold' x.place) s.workers i j w (omega (arith, v.threads, lt)) (λ q. h)
          (LoadedAt-le (get_or s.workers j nobody).place le (v.loads j));
    flagged = λ j.
        at-set (λ x. FlaggedAt x.thread.isrunning x.place) s.workers i j w
          (omega (arith, v.threads, lt)) (λ q. f) (v.flagged j);
    sold_out = λ j l.
        at-set (λ x. x.place ≡ ended → 10000 ≤ sold') s.workers i j w (omega (arith, v.threads, lt))
          (λ q. o) (λ q. omega (arith, v.sold_out j l q, le));
    joined = λ j l.
        at-set (λ x. x.place ≡ ended) s.workers i j w (omega (arith, v.threads, lt))
          (λ q. absurd ((c j l).1 q)) (v.joined j (c j l).0);
  }

  -- A step of the `i`th thread, which has not ended.
  turn_set-Sold :
      (i : ℕ) (w : Worker) (sold' : ℕ) (tickets : ℤ) (printed : List ℤ)
      → i < n
      → over (get_or s.workers i nobody).place ≡ false
      → sold ≤ sold'
      → Reached sold' tickets
      → Printed sold' printed
      → sold' + busy w + total busy s.workers ≤ length printed + busy (get_or s.workers i nobody)
      → LoadedAt sold' w.place
      → FlaggedAt w.thread.isrunning w.place
      → (w.place ≡ ended → 10000 ≤ sold')
      → Sold n sold' (record {
        workers = set s.workers i w;
        tickets = tickets;
        printed = printed;
        calls = s.calls;
      })
  turn_set-Sold i w sold' tickets printed lt going le e p b h f o =
      set-Sold i w sold' tickets printed s.calls lt le e p b h f o (λ j l. (
        l,
        λ q.
            let there : over (get_or s.workers i nobody).place ≡ true =
              ap (λ k. over (get_or s.workers k nobody).place) q ∙ ap over (v.joined j l) in
            ground (arith, going, there),
      ))

  module _ (i : ℕ) (lt : i < n) where
    abbrev worker : Worker
    worker = get_or s.workers i nobody

    -- The place of the thread, in what the invariant says of it.
    at :
        {p : Place}
        → worker.place ≡ p
        → (busy worker ≡ busy_at p)
          × (over worker.place ≡ over p)
          × FlaggedAt worker.thread.isrunning p
    at e = (ap busy_at e, ap over e, subst (FlaggedAt worker.thread.isrunning) e (v.flagged i))

    Turn-Sold : {s' : State} → Turn s i worker s' → (sold' : ℕ) × Sold n sold' s'
    unfolding enters leaves excute_before excute_after
    Turn-Sold (begins e) =
        let (b, o, f) = at e in
        (
          sold,
          turn_set-Sold i (enters worker) sold s.tickets s.printed lt o (omega arith) v.left_over
              v.numbers (omega (arith, b, v.balance)) tt refl (λ q. absurd (not_over q refl)),
        )
    Turn-Sold (passes e t) =
        let (b, o, f) = at e in
        (
          sold,
          turn_set-Sold i (moves passed worker) sold s.tickets s.printed lt o (omega arith)
              v.left_over v.numbers (omega (arith, b, v.balance)) tt f
              (λ q. absurd (not_over q refl)),
        )
    Turn-Sold (prints e) =
        let (b, o, f) = at e in
        (
          sold,
          turn_set-Sold i (moves shown worker) sold s.tickets (s.tickets ∷ s.printed) lt o
              (omega arith) v.left_over (more v.left_over v.numbers) (omega (arith, b, v.balance))
              tt f (λ q. absurd (not_over q refl)),
        )
    Turn-Sold (loads e) =
        let (b, o, f) = at e in
        (
          sold,
          turn_set-Sold i (moves (loaded s.tickets) worker) sold s.tickets s.printed lt o
              (omega arith) v.left_over v.numbers (omega (arith, b, v.balance)) v.left_over f
              (λ q. absurd (not_over q refl)),
        )
    Turn-Sold (stores {v = found} e) =
        let (b, o, f) = at e in
        let (k, few, is) = subst (LoadedAt sold) e (v.loads i) in
        (
          suc sold,
          turn_set-Sold i (moves testing worker) (suc sold) (found -ℤ pos 1) s.printed lt o
              (omega arith)
              (suc k, omega (arith, few), ap (λ x. x -ℤ pos 1) is ∙ sub_ℕ-pred 10000 k)
              (Printed-le (omega arith) v.numbers) (omega (arith, b, v.balance)) tt f
              (λ q. absurd (not_over q refl)),
        )
    Turn-Sold (returns e t) =
        let (b, o, f) = at e in
        let (k, few, is) = v.left_over in
        let all_gone = (sub_ℕ-positive 10000 k).1 (sym (ap (ltz (pos 0)) is) ∙ t) in
        (
          sold,
          turn_set-Sold i (leaves worker) sold s.tickets s.printed lt o (omega arith) v.left_over
              v.numbers (omega (arith, b, v.balance)) tt refl (λ q. omega (arith, few, all_gone)),
        )

Step-Sold : {n sold : ℕ} {s s' : State} → Sold n sold s → Step s s' → (sold' : ℕ) × Sold n sold' s'
unfolding born start
Step-Sold v (turn i lt t) = Turn-Sold v i (omega (arith, lt, v.threads)) t
Step-Sold {sold = sold} {s = s} v (starts tid lt) = (
  sold,
  set-Sold v s.calls (born tid (get_or s.workers s.calls nobody)) sold s.tickets s.printed
      (s.calls + 1) (omega (arith, lt, v.threads)) (omega arith) v.left_over v.numbers
      (omega (arith, v.balance)) tt tt (λ q. absurd (not_over q refl))
      (λ j l. absurd (omega (arith, lt, l, v.threads))),
)
Step-Sold {n = n} {sold = sold} {s = s} v (joins le lt e) = (
  sold,
  record {
    threads = v.threads;
    left_over = v.left_over;
    balance = v.balance;
    loads = v.loads;
    numbers = v.numbers;
    flagged = v.flagged;
    sold_out = v.sold_out;
    joined = λ j l. elim (same_or_not (s.calls - length s.workers) j) [
      | inl same ↦ subst (λ k. (get_or s.workers k nobody).place ≡ ended) same e
      | inr other ↦ v.joined j (omega (arith, other, l, le, v.threads))
    ];
  },
)

abbrev unborn_worker : Thread → Worker
unborn_worker t = record { thread = t; place = unborn }

initial_places :
    (threads : List Thread)
    → (length (map unborn_worker threads) ≡ length threads)
      × (total busy (map unborn_worker threads) ≡ 0)
initial_places [] = (refl, refl)
initial_places (t ∷ threads) = let (l, b) = initial_places threads in (ap suc l, omega (arith, b))

initial_at :
    (threads : List Thread) (i : ℕ)
    → let w = get_or (map unborn_worker threads) i nobody in
      FlaggedAt w.thread.isrunning w.place
      × LoadedAt 0 w.place
      × (i < length threads → over w.place ≡ false)
initial_at [] i = (refl, tt, λ h. absurd (omega (arith, h)))
initial_at (t ∷ threads) zero = (tt, tt, λ h. refl)
initial_at (t ∷ threads) (suc i) =
    let (f, l, o) = initial_at threads i in (f, l, λ h. o (omega (arith, h)))

-- Whatever the interleaving of the threads and of `main`, the load and the store of the decrement
-- being two steps: there is a number `sold` such that `tickets`, each number printed and each
-- number that a thread has loaded are 10000 - k with k at most `sold`; `sold` and the threads that
-- have printed and not yet stored are together at most the numbers printed; the flag of a thread
-- that is in its function is set and that of one that has ended is not; when one of the
-- threads has ended, `sold` is at least 10000; and the threads that `main` has joined have ended.
pub Reach-Sold :
    {threads : List Thread} {s : State}
    → Reach threads s
    → (sold : ℕ) × Sold (length threads) sold s
Reach-Sold {threads = threads} initial =
    let places = initial_places threads in
    (
      0,
      record {
        threads = places.0;
        left_over = (0, omega arith, refl);
        balance = omega (arith, places.1);
        numbers = nothing;
        loads = λ i. (initial_at threads i).1;
        flagged = λ i. (initial_at threads i).0;
        sold_out = λ i lt e. absurd (not_over e ((initial_at threads i).2 lt));
        joined = λ i l. absurd (omega (arith, l));
      },
    )
Reach-Sold (later r t) = let (sold, v) = Reach-Sold r in Step-Sold v t

-- When `main` has joined all of at least one thread, at least 10000 numbers have been printed.
pub Reach-joined :
    {threads : List Thread} {s : State}
    → Reach threads s
    → 0 < length threads
    → s.calls ≡ length threads + length threads
    → 10000 ≤ length s.printed
Reach-joined {threads = threads} r some e =
    let (sold, v) = Reach-Sold r in
    omega (arith, v.sold_out 0 some (v.joined 0 (omega (arith, e, some))), v.balance)
