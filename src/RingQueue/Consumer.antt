-- ===== src/RingQueue/Consumer.antt =====
-- The steps of `Pop` that read and move the index.
use linux_cpp.Common.{
  suc-mod, ℕ, suc, ◌%◌, ◌<◌, ◌≡◌, ◌≢◌, refl, sym, ap, ◌∙◌, List, [], ◌∷◌, ◌++◌, length, get_elem?,
  get_or, set, some, arith, map, le-total, add-le-total, length-append,
}
use mathlib.Core.List.{append_assoc}
use linux_cpp.RingQueue.{RingQueue, Pc, idle, pop_read, pop_step, pop_unlock}
use linux_cpp.RingQueue.Window.{window}
use linux_cpp.RingQueue.Invariant.{held-le, popping, in_pop, Inv, Counts, after}

uncons : {A : Type 0} (xs : List A) → 0 < length xs → (y : A) × (ys : List A) × (xs ≡ y ∷ ys)
uncons [] h = absurd (omega arith)
uncons (x ∷ xs) h = (x, xs, refl)

module _ {A : Type 0} where
  module _ {rest : List A} {m : RingQueue A} {ts : List (Pc A)} (v : Inv rest m ts) (i : ℕ)
      (lt : i < length ts) where
    -- The load: the thread now carries the value at `c_step`.
    pub read-Inv :
        (x : A)
        → Counts v i lt pop_read (pop_step x)
        → get_elem? m.ringqueue m.c_step ≡ some x
        → Inv rest m (set ts i (pop_step x))
    read-Inv x c e = record {
      positive = v.positive;
      size = v.size;
      fifo = v.fifo;
      p_at = v.p_at;
      c_at = v.c_at;
      content = v.content;
      spaces = omega (arith, v.spaces, c);
      datas = omega (arith, v.datas, c);
      one_producer = omega (arith, v.one_producer, c);
      one_consumer = omega (arith, v.one_consumer, c);
      stored = λ j y q. ground (arith, v.stored j y, after v i lt (pop_step x) j);
      loaded = λ j y q. ground (arith, v.loaded j y, after v i lt (pop_step x) j, e);
    }

    -- The index of the consumers moves: the value loaded was the oldest of the queue.
    pub step_c-Inv :
        (x : A)
        → Counts v i lt (pop_step x) pop_unlock
        → (rest' : List A) × Inv rest'
            (record m { c_step = suc m.c_step % m.cap; outs = m.outs ++ x ∷ [] })
            (set ts i pop_unlock)
    step_c-Inv x c = (
      rest',
      record {
        positive = v.positive;
        size = v.size;
        fifo = v.fifo ∙ ap (◌++◌ m.outs) front ∙ sym (append_assoc m.outs (x ∷ []) rest');
        p_at = v.p_at ∙ ap (λ k. k % m.cap) (omega (arith, grown, shrunk));
        c_at =
            ap (λ k. suc k % m.cap) v.c_at
            ∙ suc-mod (length m.outs) m.cap
            ∙ ap (λ k. k % m.cap) (sym grown);
        content = rw grown (ground (arith, long));
        spaces = omega (arith, v.spaces, c, shrunk);
        datas = omega (arith, v.datas, c, shrunk);
        one_producer = omega (arith, v.one_producer, c);
        one_consumer = omega (arith, v.one_consumer, c);
        stored = λ j y q. ground (arith, after v i lt pop_unlock j, v.stored j y);
        loaded = λ j y q. ground (arith, after v i lt pop_unlock j, alone j, ap in_pop q);
      },
    )
      where
        split : (y : A) × (ys : List A) × (rest ≡ y ∷ ys)
        split =
            uncons rest (omega (arith, v.datas, le-total popping ts i idle refl, ap popping c.was))

        rest' : List A
        rest' = split.1

        long :
            get_elem? m.ringqueue (length m.outs % m.cap)
              ∷ window m.ringqueue m.cap (suc (length m.outs)) (length rest')
            ≡ some split.0 ∷ map some rest'
        long = rw split.2 at v.content

        front : rest ≡ x ∷ rest'
        front = ground (arith, long, v.loaded i x c.was, v.c_at, split.2)

        grown : length (m.outs ++ x ∷ []) ≡ suc (length m.outs)
        grown = omega (arith, length-append m.outs (x ∷ []))

        shrunk : length rest ≡ suc (length rest')
        shrunk = ap length split.2

        alone : (j : ℕ) → i ≢ j → in_pop (get_or ts j idle) ≡ 0
        alone j ne = omega (
          arith,
          add-le-total in_pop ts i j idle refl ne,
          ap in_pop c.was,
          v.one_consumer,
          held-le m.c_mutex,
        )
