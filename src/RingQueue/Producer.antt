-- ===== src/RingQueue/Producer.antt =====
-- The steps of `Push` that write.
use linux_cpp.Common.{
  suc-mod, ℕ, suc, ◌+◌, ◌%◌, ◌<◌, ◌≡◌, ◌≢◌, refl, sym, ap, ◌∙◌, List, [], ◌∷◌, ◌++◌, length,
  get_elem?, get_or, set, some, arith, map, le-total, add-le-total, length-set, length-append,
}
use mathlib.Core.List.{append_assoc, map-append}
use native.Mathlib.Nat.{mod-lt}
use linux_cpp.RingQueue.{RingQueue, Pc, idle, push_write, push_step, push_post, pop_step}
use linux_cpp.RingQueue.Window.{
  window, window-set, window-suc, get_elem?-set_self, get_elem?-set_ne, mod_ne,
}
use linux_cpp.RingQueue.Invariant.{held-le, pushing, popping, in_push, Inv, Counts, after}

module _ {A : Type 0} where
  module _ {rest : List A} {m : RingQueue A} {ts : List (Pc A)} (v : Inv rest m ts) (i : ℕ)
      (lt : i < length ts) where
    -- The store goes to a slot that is not in the queue.
    pub write-Inv :
        (x : A)
        → Counts v i lt (push_write x) (push_step x)
        → Inv rest (record m { ringqueue = set m.ringqueue m.p_step x }) (set ts i (push_step x))
    write-Inv x c = record {
      positive = v.positive;
      size = length-set m.ringqueue m.p_step x ∙ v.size;
      fifo = v.fifo;
      p_at = v.p_at;
      c_at = v.c_at;
      content = kept ∙ v.content;
      spaces = omega (arith, v.spaces, c);
      datas = omega (arith, v.datas, c);
      one_producer = omega (arith, v.one_producer, c);
      one_consumer = omega (arith, v.one_consumer, c);
      stored = λ j y q. ground (arith, after v i lt (push_step x) j, alone j, stored_here, c.was);
      loaded = λ j y q. ground (arith, after v i lt (push_step x) j, loaded_here j y);
    }
      where
        room : length rest < m.cap
        room = omega (arith, v.spaces, c, le-total pushing ts i idle refl, ap pushing c.was)

        kept :
            window (set m.ringqueue m.p_step x) m.cap (length m.outs) (length rest)
            ≡ window m.ringqueue m.cap (length m.outs) (length rest)
        kept = rw v.p_at (
            window-set m.ringqueue m.cap (length m.outs) (length rest) (length m.outs + length rest)
              x (omega arith) (omega (arith, room)))

        stored_here : get_elem? (set m.ringqueue m.p_step x) m.p_step ≡ some x
        stored_here =
            get_elem?-set_self m.ringqueue m.p_step x (rw (v.p_at, v.size) (mod-lt _ v.positive))

        alone : (j : ℕ) → i ≢ j → in_push (get_or ts j idle) ≡ 0
        alone j ne = omega (
          arith,
          add-le-total in_push ts i j idle refl ne,
          ap in_push c.was,
          v.one_producer,
          held-le m.p_mutex,
        )

        apart : 0 < length rest → m.p_step ≢ m.c_step
        apart some_rest e =
            mod_ne (length m.outs) (length m.outs + length rest) m.cap (omega arith)
              (omega (arith, room)) (sym v.c_at ∙ sym e ∙ v.p_at)

        loaded_here :
            (j : ℕ) (y : A)
            → get_or ts j idle ≡ pop_step y
            → get_elem? (set m.ringqueue m.p_step x) m.c_step ≡ some y
        loaded_here j y q =
            get_elem?-set_ne m.ringqueue m.p_step m.c_step x
              (apart (omega (arith, v.datas, le-total popping ts j idle refl, ap popping q)))
            ∙ v.loaded j y q

    -- The index of the producers moves: the value stored is the newest of the queue.
    pub step_p-Inv :
        (x : A)
        → Counts v i lt (push_step x) push_post
        → Inv
            (rest ++ x ∷ [])
            (record m { p_step = suc m.p_step % m.cap; ins = m.ins ++ x ∷ [] })
            (set ts i push_post)
    step_p-Inv x c = record {
      positive = v.positive;
      size = v.size;
      fifo = ap (λ l. l ++ x ∷ []) v.fifo ∙ append_assoc m.outs rest (x ∷ []);
      p_at = moved;
      c_at = v.c_at;
      content = longer;
      spaces = omega (arith, v.spaces, c, grown);
      datas = omega (arith, v.datas, c, grown);
      one_producer = omega (arith, v.one_producer, c);
      one_consumer = omega (arith, v.one_consumer, c);
      stored = λ j y q. ground (arith, after v i lt push_post j, alone j, ap in_push q);
      loaded = λ j y q. ground (arith, after v i lt push_post j, v.loaded j y);
    }
      where
        grown : length (rest ++ x ∷ []) ≡ suc (length rest)
        grown = omega (arith, length-append rest (x ∷ []))

        moved : suc m.p_step % m.cap ≡ (length m.outs + length (rest ++ x ∷ [])) % m.cap
        moved =
            rw (v.p_at, suc-mod (length m.outs + length rest) m.cap)
              (ap (λ k. k % m.cap) (omega (arith, grown)))

        longer :
            window m.ringqueue m.cap (length m.outs) (length (rest ++ x ∷ []))
            ≡ map some (rest ++ x ∷ [])
        longer =
            rw
              (
                grown,
                window-suc m.ringqueue m.cap (length m.outs) (length rest),
                v.content,
                ← v.p_at,
                v.stored i x c.was,
                map-append,
              )
              refl

        alone : (j : ℕ) → i ≢ j → in_push (get_or ts j idle) ≡ 0
        alone j ne = omega (
          arith,
          add-le-total in_push ts i j idle refl ne,
          ap in_push c.was,
          v.one_producer,
          held-le m.p_mutex,
        )
