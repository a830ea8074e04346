-- ===== src/RingQueue/Invariant.antt =====
-- What holds in every reachable state of the ring queue, and how a move of a thread changes the
-- counts.
use linux_cpp.Common.{
  ℕ, ◌+◌, ◌%◌, ◌≤◌, ◌<◌, arith, ◌≡◌, ◌≢◌, refl, List, ◌++◌, Bool, true, false, length, get_elem?,
  get_or, set, some, map, total, total-set, get_or-set_self, get_or-set_ne, ◌⊎◌, inl, inr,
}
use native.Mathlib.Decide.{ℕ_discrete}
use linux_cpp.RingQueue.{
  RingQueue, Pc, idle, push_lock, push_write, push_step, push_post, push_unlock, pop_lock, pop_read,
  pop_step, pop_unlock, pop_post,
}
use linux_cpp.RingQueue.Window.{window}

abbrev pub held : Bool → ℕ
held true = 1
held false = 0

pub held-le : (b : Bool) → held b ≤ 1
held-le true = omega arith
held-le false = omega arith

module _ {A : Type 0} where
  -- holds a token of the space semaphore whose value is not yet in the queue
  abbrev pub pushing : Pc A → ℕ
  pushing (push_lock x) = 1
  pushing (push_write x) = 1
  pushing (push_step x) = 1
  pushing _ = 0

  -- has put a value in and not yet posted it
  abbrev pub posting : Pc A → ℕ
  posting push_post = 1
  posting _ = 0

  -- holds a token of the data semaphore whose value is still in the queue
  abbrev pub popping : Pc A → ℕ
  popping pop_lock = 1
  popping pop_read = 1
  popping (pop_step x) = 1
  popping _ = 0

  -- has taken a value out and not yet given the space back
  abbrev pub returning : Pc A → ℕ
  returning pop_unlock = 1
  returning pop_post = 1
  returning _ = 0

  -- holds `p_mutex`
  abbrev pub in_push : Pc A → ℕ
  in_push (push_write x) = 1
  in_push (push_step x) = 1
  in_push push_post = 1
  in_push push_unlock = 1
  in_push _ = 0

  -- holds `c_mutex`
  abbrev pub in_pop : Pc A → ℕ
  in_pop pop_read = 1
  in_pop (pop_step x) = 1
  in_pop pop_unlock = 1
  in_pop _ = 0

  -- `rest` is what is in the queue, oldest first.
  pub record Inv (rest : List A) (m : RingQueue A) (threads : List (Pc A)) : Type 0 where
    pub positive : 0 < m.cap
    pub size : length m.ringqueue ≡ m.cap
    pub fifo : m.ins ≡ m.outs ++ rest
    pub p_at : m.p_step ≡ (length m.outs + length rest) % m.cap
    pub c_at : m.c_step ≡ length m.outs % m.cap
    pub content : window m.ringqueue m.cap (length m.outs) (length rest) ≡ map some rest
    pub spaces :
        m.pspace_sem + total pushing threads + length rest + total returning threads ≡ m.cap
    pub datas : m.cdata_sem + total popping threads + total posting threads ≡ length rest
    pub one_producer : total in_push threads ≡ held m.p_mutex
    pub one_consumer : total in_pop threads ≡ held m.c_mutex
    pub stored :
        (i : ℕ) (x : A)
        → get_or threads i idle ≡ push_step x
        → get_elem? m.ringqueue m.p_step ≡ some x
    pub loaded :
        (i : ℕ) (x : A)
        → get_or threads i idle ≡ pop_step x
        → get_elem? m.ringqueue m.c_step ≡ some x

  module _ {rest : List A} {m : RingQueue A} {ts : List (Pc A)} (v : Inv rest m ts) (i : ℕ)
      (lt : i < length ts) where
    -- What moving thread `i` to `p` does to the counts.
    pub record Counts (p p' : Pc A) : Type 0 where
      pub pushings : total pushing (set ts i p') + pushing p ≡ total pushing ts + pushing p'
      pub postings : total posting (set ts i p') + posting p ≡ total posting ts + posting p'
      pub poppings : total popping (set ts i p') + popping p ≡ total popping ts + popping p'
      pub returnings :
          total returning (set ts i p') + returning p ≡ total returning ts + returning p'
      pub in_pushes : total in_push (set ts i p') + in_push p ≡ total in_push ts + in_push p'
      pub in_pops : total in_pop (set ts i p') + in_pop p ≡ total in_pop ts + in_pop p'
      pub was : get_or ts i idle ≡ p

    pub counts : (p' : Pc A) → Counts (get_or ts i idle) p'
    counts p' = record {
      pushings = total-set pushing ts i p' idle lt;
      postings = total-set posting ts i p' idle lt;
      poppings = total-set popping ts i p' idle lt;
      returnings = total-set returning ts i p' idle lt;
      in_pushes = total-set in_push ts i p' idle lt;
      in_pops = total-set in_pop ts i p' idle lt;
      was = refl;
    }

    -- Thread `j` after the move of thread `i`.
    pub after :
        (p' : Pc A) (j : ℕ)
        → (i ≡ j) × (get_or (set ts i p') j idle ≡ p')
          ⊎ (i ≢ j) × (get_or (set ts i p') j idle ≡ get_or ts j idle)
    after p' j = elim (ℕ_discrete i j) [
      | yes e ↦ inl (e, rw (← e) (get_or-set_self ts i p' idle lt))
      | no ne ↦ inr (ne, get_or-set_ne ts i j p' idle ne)
    ]
