-- ===== src/RingQueue/Progress.antt =====
-- When the threads of the ring queue can go on.
use linux_cpp.Common.{
  ℕ, zero, suc, ◌+◌, ◌<◌, ◌≤◌, ◌≡◌, inl, inr, refl, ap, ◌∙◌, List, [], ◌∷◌, ◌++◌, Bool, true, false,
  length, length-append, get_or, get_elem?, some, arith, total, zero_or_positive, find_positive,
  ◌-◌,
}
use mathlib.Core.List.{append-nil}
use native.Mathlib.Nat.{mod-lt}
use linux_cpp.RingQueue.{
  RingQueue, Pc, idle, push_wait, push_lock, push_write, push_step, push_post, push_unlock,
  pop_wait, pop_lock, pop_read, pop_step, pop_unlock, pop_post, Move, take_space, lock_p, write,
  step_p, post_data, unlock_p, pop, take_data, lock_c, read, step_c, unlock_c, post_space, System,
  Step, pick, Reach,
}
use linux_cpp.RingQueue.Invariant.{Inv, pushing, posting, popping, returning, in_push, in_pop, held}
use linux_cpp.RingQueue.Fifo.{Reached, Reach-Reached}

free : (b : Bool) → held b ≡ 0 → b ≡ false
free true h = absurd (omega (arith, h))
free false h = refl

append-none : {A : Type 0} (xs ys : List A) → length ys ≡ 0 → xs ++ ys ≡ xs
append-none xs [] h = append-nil xs
append-none xs (y ∷ ys) h = absurd (omega (arith, h))

module _ {A : Type 0} where
  -- waits for a semaphore in `Push`, in `Pop`
  abbrev pub space_waits : Pc A → ℕ
  space_waits (push_wait x) = 1
  space_waits _ = 0

  abbrev pub data_waits : Pc A → ℕ
  data_waits pop_wait = 1
  data_waits _ = 0

  abbrev going : Pc A → ℕ
  going (push_wait x) = 0
  going pop_wait = 0
  going _ = 1

  abbrev CanMove : RingQueue A → Pc A → Type 0
  CanMove m p = (m' : RingQueue A) × (p' : Pc A) × Move A m p m' p'

  pushes_on : (m : RingQueue A) (p : Pc A) → 0 < in_push p → CanMove m p
  pushes_on m (push_write x) h = (_, _, write)
  pushes_on m (push_step x) h = (_, _, step_p)
  pushes_on m push_post h = (_, _, post_data)
  pushes_on m push_unlock h = (_, _, unlock_p)
  pushes_on m p h = absurd (omega arith)

  pops_on :
      (m : RingQueue A) (p : Pc A) (x : A)
      → get_elem? m.ringqueue m.c_step ≡ some x
      → 0 < in_pop p
      → CanMove m p
  pops_on m pop_read x e h = (_, _, read e)
  pops_on m (pop_step y) x e h = (_, _, step_c)
  pops_on m pop_unlock x e h = (_, _, unlock_c)
  pops_on m p x e h = absurd (omega arith)

  goes_on :
      (m : RingQueue A) (p : Pc A) (x : A)
      → get_elem? m.ringqueue m.c_step ≡ some x
      → m.p_mutex ≡ false
      → m.c_mutex ≡ false
      → 0 < going p
      → CanMove m p
  goes_on m idle x e f g h = (_, _, pop)
  goes_on m (push_wait y) x e f g h = absurd (omega arith)
  goes_on m (push_lock y) x e f g h = (_, _, lock_p f)
  goes_on m (push_write y) x e f g h = (_, _, write)
  goes_on m (push_step y) x e f g h = (_, _, step_p)
  goes_on m push_post x e f g h = (_, _, post_data)
  goes_on m push_unlock x e f g h = (_, _, unlock_p)
  goes_on m pop_wait x e f g h = absurd (omega arith)
  goes_on m pop_lock x e f g h = (_, _, lock_c g)
  goes_on m pop_read x e f g h = (_, _, read e)
  goes_on m (pop_step y) x e f g h = (_, _, step_c)
  goes_on m pop_unlock x e f g h = (_, _, unlock_c)
  goes_on m pop_post x e f g h = (_, _, post_space)

  -- All threads wait for a semaphore.
  record Waiting (threads : List (Pc A)) : Type 0 where
    no_pushing : total pushing threads ≡ 0
    no_posting : total posting threads ≡ 0
    no_popping : total popping threads ≡ 0
    no_returning : total returning threads ≡ 0
    all_waits : total space_waits threads + total data_waits threads ≡ length threads

  waits : (p : Pc A) → space_waits p + data_waits p + going p ≡ 1
  waits idle = refl
  waits p = refl

  parts : (p : Pc A) → pushing p + posting p + popping p + returning p ≤ going p
  parts idle = omega arith
  parts p = omega arith

  waiting : (threads : List (Pc A)) → total going threads ≡ 0 → Waiting threads
  waiting [] h = record {
    no_pushing = refl;
    no_posting = refl;
    no_popping = refl;
    no_returning = refl;
    all_waits = refl;
  }
  waiting (p ∷ threads) h =
      let v = waiting threads (omega (arith, h)) in
      omega (
        arith,
        h,
        waits p,
        parts p,
        v.no_pushing,
        v.no_posting,
        v.no_popping,
        v.no_returning,
        v.all_waits,
      )

  -- What one step of thread `i` can be.
  goes :
      (s : System A) (i : ℕ)
      → i < length s.threads
      → CanMove s.mem (get_or s.threads i idle)
      → (t : System A) × Step A s t
  goes s i lt (m, p, mv) = (_, pick i lt mv)

  readable : (r : List A) (i : ℕ) → i < length r → (x : A) × (get_elem? r i ≡ some x)
  readable [] i h = absurd (omega arith)
  readable (x ∷ r) zero h = (x, refl)
  readable (x ∷ r) (suc i) h = readable r i (omega arith)

  next_readable :
      {rest : List A} {m : RingQueue A} {ts : List (Pc A)}
      → Inv rest m ts
      → (x : A) × (get_elem? m.ringqueue m.c_step ≡ some x)
  next_readable {m = m} v =
      readable m.ringqueue m.c_step
        (omega (arith, v.c_at, v.size, mod-lt (length m.outs) v.positive))

  -- What a state with threads allows.
  pub data Progress (limit : ℕ) (s : System A) : Type 0 where
    moves : (t : System A) → Step A s t → Progress limit s
    full :
        total space_waits s.threads ≡ length s.threads
        → length s.mem.ins ≡ length s.mem.outs + limit
        → Progress limit s
    empty :
        total data_waits s.threads ≡ length s.threads → s.mem.ins ≡ s.mem.outs → Progress limit s

  takes_space : (m : RingQueue A) (p : Pc A) → 0 < m.pspace_sem → 0 < space_waits p → CanMove m p
  takes_space m (push_wait x) h k = (_, _, take_space (m.pspace_sem - 1) (omega arith))
  takes_space m p h k = absurd (omega arith)

  takes_data : (m : RingQueue A) (p : Pc A) → 0 < m.cdata_sem → 0 < data_waits p → CanMove m p
  takes_data m pop_wait h k = (_, _, take_data (m.cdata_sem - 1) (omega arith))
  takes_data m p h k = absurd (omega arith)

  module _ {limit : ℕ} {s : System A} where
    -- A thread for which a move is found makes a step.
    picks :
        (w : Pc A → ℕ)
        → ((p : Pc A) → 0 < w p → CanMove s.mem p)
        → 0 < total w s.threads
        → Progress limit s
    picks w can h =
        let (i, lt, k) = find_positive w s.threads idle h in
        let (t, e) = goes s i lt (can (get_or s.threads i idle) k) in moves t e

    all_wait :
        {rest : List A}
        → Inv rest s.mem s.threads
        → s.mem.cap ≡ limit
        → 0 < length s.threads
        → total going s.threads ≡ 0
        → Progress limit s
    all_wait {rest} v cap some_thread h =
        let q = waiting s.threads h in
        let tokens : s.mem.pspace_sem + s.mem.cdata_sem ≡ s.mem.cap =
          omega
            (arith, v.spaces, v.datas, q.no_pushing, q.no_returning, q.no_popping, q.no_posting) in
        let stored : s.mem.cdata_sem ≡ length rest =
          omega (arith, v.datas, q.no_popping, q.no_posting) in
        elim (zero_or_positive s.mem.pspace_sem) [
          | inl none_free ↦ elim (zero_or_positive (total data_waits s.threads)) [
            | inl no_pop ↦ full (omega (arith, q.all_waits, no_pop)) (
                omega (
                  arith,
                  ap length v.fifo,
                  length-append s.mem.outs rest,
                  stored,
                  tokens,
                  none_free,
                  cap,
                ))
            | inr some_pop ↦
                picks data_waits
                  (λ p. takes_data s.mem p (omega (arith, tokens, v.positive, none_free))) some_pop
          ]
          | inr some_free ↦ elim (zero_or_positive (total space_waits s.threads)) [
            | inl no_push ↦ elim (zero_or_positive s.mem.cdata_sem) [
              | inl no_data ↦
                  empty (omega (arith, q.all_waits, no_push))
                    (v.fifo ∙ append-none s.mem.outs rest (omega (arith, stored, no_data)))
              | inr some_data ↦
                  picks data_waits (λ p. takes_data s.mem p some_data)
                    (omega (arith, q.all_waits, no_push, some_thread))
            ]
            | inr some_push ↦ picks space_waits (λ p. takes_space s.mem p some_free) some_push
          ]
        ]

    Reached-Progress : Reached limit s → 0 < length s.threads → Progress limit s
    Reached-Progress r some_thread =
        let v = r.inv in
        let (x, e) = next_readable v in
        elim (zero_or_positive (total in_push s.threads)) [
          | inr pushes ↦ picks in_push (pushes_on s.mem) pushes
          | inl no_push ↦ elim (zero_or_positive (total in_pop s.threads)) [
            | inr pops ↦ picks in_pop (λ p. pops_on s.mem p x e) pops
            | inl no_pop ↦ elim (zero_or_positive (total going s.threads)) [
              | inr some_go ↦
                  picks going
                    (λ p.
                      goes_on s.mem p x e
                        (free s.mem.p_mutex (omega (arith, v.one_producer, no_push)))
                        (free s.mem.c_mutex (omega (arith, v.one_consumer, no_pop))))
                    some_go
              | inl none_go ↦ all_wait v r.cap_same some_thread none_go
            ]
          ]
        ]

  -- In every state that some threads can reach in any interleaving, over a queue of positive
  -- capacity, some thread has a step, or all threads wait in `Push` and the queue is full, or all
  -- wait in `Pop` and it is empty: the semaphores and the mutexes make no deadlock of their own.
  pub Reach-Progress :
      {default : A} {limit n : ℕ} {s : System A}
      → 0 < limit
      → 0 < length s.threads
      → Reach A default limit n s
      → Progress limit s
  Reach-Progress h k r = Reached-Progress (Reach-Reached h r) k
