-- ===== src/RingQueue/Moves.antt =====
-- Every step keeps the invariant.
use linux_cpp.Common.{
  ℕ, suc, ◌+◌, ◌<◌, ◌≡◌, ◌≢◌, ap, List, [], ◌∷◌, ◌++◌, Bool, true, false, length, set, arith, total,
}
use linux_cpp.RingQueue.{
  RingQueue, Pc, idle, push_wait, push_lock, push_write, push_step, push_unlock, pop_wait, pop_lock,
  pop_read, pop_step, pop_post, Move, push, take_space, lock_p, write, step_p, post_data, unlock_p,
  pop, take_data, lock_c, read, step_c, unlock_c, post_space,
}
use linux_cpp.RingQueue.Invariant.{
  held, held-le, pushing, posting, popping, returning, in_push, in_pop, Inv, Counts, after,
}
use linux_cpp.RingQueue.Producer.{write-Inv, step_p-Inv}
use linux_cpp.RingQueue.Consumer.{read-Inv, step_c-Inv}

module _ {A : Type 0} where
  module _ {rest : List A} {m : RingQueue A} {ts : List (Pc A)} (v : Inv rest m ts) (i : ℕ)
      (lt : i < length ts) where
    -- A step that changes only the semaphores and the mutexes, to a `p'` that carries no value.
    quiet :
        (p' : Pc A) (data_sem space_sem : ℕ) (c_lock p_lock : Bool)
        → ((x : A) → p' ≢ push_step x)
        → ((x : A) → p' ≢ pop_step x)
        → space_sem + total pushing (set ts i p') + length rest + total returning (set ts i p')
          ≡ m.cap
        → data_sem + total popping (set ts i p') + total posting (set ts i p') ≡ length rest
        → total in_push (set ts i p') ≡ held p_lock
        → total in_pop (set ts i p') ≡ held c_lock
        → Inv rest
            (record m {
              cdata_sem = data_sem;
              pspace_sem = space_sem;
              c_mutex = c_lock;
              p_mutex = p_lock;
            })
            (set ts i p')
    quiet p' data_sem space_sem c_lock p_lock np nc sp da op oc = record {
      positive = v.positive;
      size = v.size;
      fifo = v.fifo;
      p_at = v.p_at;
      c_at = v.c_at;
      content = v.content;
      spaces = sp;
      datas = da;
      one_producer = op;
      one_consumer = oc;
      stored = λ j y e. ground (arith, v.stored j y, after v i lt p' j, np y);
      loaded = λ j y e. ground (arith, v.loaded j y, after v i lt p' j, nc y);
    }

    pub Move-Inv :
        {p p' : Pc A} {m' : RingQueue A}
        → Move A m p m' p'
        → Counts v i lt p p'
        → (rest' : List A) × Inv rest' m' (set ts i p')
    Move-Inv (push x) c = (
      rest,
      quiet (push_wait x) m.cdata_sem m.pspace_sem m.c_mutex m.p_mutex (λ y. ground arith)
          (λ y. ground arith) (omega (arith, v.spaces, c)) (omega (arith, v.datas, c))
          (omega (arith, v.one_producer, c)) (omega (arith, v.one_consumer, c)),
    )
    Move-Inv (take_space {x} n e) c = (
      rest,
      quiet (push_lock x) m.cdata_sem n m.c_mutex m.p_mutex (λ y. ground arith) (λ y. ground arith)
          (omega (arith, v.spaces, c, e)) (omega (arith, v.datas, c))
          (omega (arith, v.one_producer, c)) (omega (arith, v.one_consumer, c)),
    )
    Move-Inv (lock_p {x} e) c = (
      rest,
      quiet (push_write x) m.cdata_sem m.pspace_sem m.c_mutex true (λ y. ground arith)
          (λ y. ground arith) (omega (arith, v.spaces, c)) (omega (arith, v.datas, c))
          (omega (arith, v.one_producer, c, ap held e)) (omega (arith, v.one_consumer, c)),
    )
    Move-Inv (write {x}) c = (rest, write-Inv v i lt x c)
    Move-Inv (step_p {x}) c = (rest ++ x ∷ [], step_p-Inv v i lt x c)
    Move-Inv post_data c = (
      rest,
      quiet push_unlock (suc m.cdata_sem) m.pspace_sem m.c_mutex m.p_mutex (λ y. ground arith)
          (λ y. ground arith) (omega (arith, v.spaces, c)) (omega (arith, v.datas, c))
          (omega (arith, v.one_producer, c)) (omega (arith, v.one_consumer, c)),
    )
    Move-Inv unlock_p c = (
      rest,
      quiet idle m.cdata_sem m.pspace_sem m.c_mutex false (λ y. ground arith) (λ y. ground arith)
          (omega (arith, v.spaces, c)) (omega (arith, v.datas, c))
          (omega (arith, v.one_producer, c, held-le m.p_mutex)) (omega (arith, v.one_consumer, c)),
    )
    Move-Inv pop c = (
      rest,
      quiet pop_wait m.cdata_sem m.pspace_sem m.c_mutex m.p_mutex (λ y. ground arith)
          (λ y. ground arith) (omega (arith, v.spaces, c)) (omega (arith, v.datas, c))
          (omega (arith, v.one_producer, c)) (omega (arith, v.one_consumer, c)),
    )
    Move-Inv (take_data n e) c = (
      rest,
      quiet pop_lock n m.pspace_sem m.c_mutex m.p_mutex (λ y. ground arith) (λ y. ground arith)
          (omega (arith, v.spaces, c)) (omega (arith, v.datas, c, e))
          (omega (arith, v.one_producer, c)) (omega (arith, v.one_consumer, c)),
    )
    Move-Inv (lock_c e) c = (
      rest,
      quiet pop_read m.cdata_sem m.pspace_sem true m.p_mutex (λ y. ground arith) (λ y. ground arith)
          (omega (arith, v.spaces, c)) (omega (arith, v.datas, c))
          (omega (arith, v.one_producer, c)) (omega (arith, v.one_consumer, c, ap held e)),
    )
    Move-Inv (read {x} e) c = (rest, read-Inv v i lt x c e)
    Move-Inv (step_c {x}) c = step_c-Inv v i lt x c
    Move-Inv unlock_c c = (
      rest,
      quiet pop_post m.cdata_sem m.pspace_sem false m.p_mutex (λ y. ground arith)
          (λ y. ground arith) (omega (arith, v.spaces, c)) (omega (arith, v.datas, c))
          (omega (arith, v.one_producer, c)) (omega (arith, v.one_consumer, c, held-le m.c_mutex)),
    )
    Move-Inv post_space c = (
      rest,
      quiet idle m.cdata_sem (suc m.pspace_sem) m.c_mutex m.p_mutex (λ y. ground arith)
          (λ y. ground arith) (omega (arith, v.spaces, c)) (omega (arith, v.datas, c))
          (omega (arith, v.one_producer, c)) (omega (arith, v.one_consumer, c)),
    )
