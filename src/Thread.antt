-- ===== src/Thread.antt =====
-- Thread/Thread.hpp, a thread with a name, and Thread/Main.cc, threads that sell tickets
-- together. What a constructor leaves uninitialised is an argument, and every pthread_create
-- succeeds. A step is one access of a thread to the shared `tickets`, of which the decrement makes
-- two, a load and a store with no lock about them; or a call of `main`.
pub mod Count
pub mod Tickets
mod Tests
use linux_cpp.Common.{
  ℕ, ◌+◌, ◌-◌, ◌<◌, ◌≤◌, ◌≡◌, List, [], ◌∷◌, Bool, true, false, ℤ, pos, ltz, eqb, map, ◌-ℤ◌, Bytes,
  codes, length, get_or, set, if◌then◌else◌,
}

pub record Thread : Type 0 where
  pub name : Bytes
  pub tid : ℕ
  pub isrunning : Bool

-- The constructor; `tid` and `isrunning` are what the memory held.
abbrev pub construct : (tid : ℕ) → (isrunning : Bool) → Bytes → Thread
construct tid isrunning name = record { name = name; tid = tid; isrunning = isrunning }

-- `Start`, when pthread_create answers `n` and stores `tid`.
unfoldable pub start : (n : ℤ) → (tid : ℕ) → Thread → Bool × Thread
start n tid t = (eqb n (pos 0), record t { tid = tid })

-- `Excute` up to the call of the function, and after it.
unfoldable pub excute_before : Thread → Thread
excute_before t = record t { isrunning = true }

unfoldable pub excute_after : Thread → Thread
excute_after t = record t { isrunning = false }

pub status : Thread → Bytes
status t = if t.isrunning then codes "running" else codes "sleep"

-- `Stop`: whether pthread_cancel is called.
unfoldable pub stop : Thread → Bool × Thread
stop t = if t.isrunning then (true, record t { isrunning = false }) else (false, t)

-- Where a thread of Main.cc is in `route`.
pub data Place : Type 0 where
  unborn created testing passed shown ended : Place
  loaded : (tickets : ℤ) → Place  -- before the store of `tickets--`

pub record Worker : Type 0 where
  pub thread : Thread
  pub place : Place

-- `calls` counts the calls of Start and Join that `main` has made, `printed` is newest first.
pub record State : Type 0 where
  pub workers : List Worker
  pub tickets : ℤ
  pub printed : List ℤ
  pub calls : ℕ

abbrev pub nobody : Worker
nobody = record { thread = construct 0 false []; place = ended }

unfoldable pub enters : Worker → Worker
unfolding excute_before
enters w = record { thread = excute_before w.thread; place = testing }

unfoldable pub leaves : Worker → Worker
unfolding excute_after
leaves w = record { thread = excute_after w.thread; place = ended }

unfoldable pub born : ℕ → Worker → Worker
unfolding start
born tid w = record { thread = (start (pos 0) tid w.thread).1; place = created }

abbrev pub moves : Place → Worker → Worker
moves p w = record w { place = p }

-- The steps of the `i`th thread, which is the worker `w`.
pub data Turn (s : State) (i : ℕ) (w : Worker) : State → Type 0 where
  begins : w.place ≡ created → Turn s i w (record s { workers = set s.workers i (enters w) })
  passes :
      w.place ≡ testing
      → ltz (pos 0) s.tickets ≡ true
      → Turn s i w (record s { workers = set s.workers i (moves passed w) })
  prints :
      w.place ≡ passed
      → Turn s i w
          (record s { workers = set s.workers i (moves shown w); printed = s.tickets ∷ s.printed })
  loads :
      w.place ≡ shown
      → Turn s i w (record s { workers = set s.workers i (moves (loaded s.tickets) w) })
  stores :
      {v : ℤ}
      → w.place ≡ loaded v
      → Turn s i w (record s { workers = set s.workers i (moves testing w); tickets = v -ℤ pos 1 })
  returns :
      w.place ≡ testing
      → ltz (pos 0) s.tickets ≡ false
      → Turn s i w (record s { workers = set s.workers i (leaves w) })

pub data Step (s : State) : State → Type 0 where
  turn :
      {s' : State} (i : ℕ)
      → i < length s.workers
      → Turn s i (get_or s.workers i nobody) s'
      → Step s s'
  starts :
      (tid : ℕ)
      → s.calls < length s.workers
      → Step s (record s {
        workers = set s.workers s.calls (born tid (get_or s.workers s.calls nobody));
        calls = s.calls + 1;
      })
  joins :
      length s.workers ≤ s.calls
      → s.calls < length s.workers + length s.workers
      → (get_or s.workers (s.calls - length s.workers) nobody).place ≡ ended
      → Step s (record s { calls = s.calls + 1 })

-- `int tickets = 10000;` and the constructors of the threads
pub data Reach (threads : List Thread) : State → Type 0 where
  initial : Reach threads (record {
    workers = map (λ t. record { thread = t; place = unborn }) threads;
    tickets = pos 10000;
    printed = [];
    calls = 0;
  })
  later : {s s' : State} → Reach threads s → Step s s' → Reach threads s'
