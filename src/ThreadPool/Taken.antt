-- ===== src/ThreadPool/Taken.antt =====
-- Which tasks the pool's threads run.
use linux_cpp.Common.{
  ℕ, ◌-◌, ◌<◌, ◌≡◌, refl, sym, ap, subst, ◌∙◌, List, [], ◌∷◌, ◌++◌, length, get_or, set,
  get_or-set_self, get_or-set_ne, arith, if_split, if_both, Bool, true,
}
use native.Mathlib.Decide.{ℕ_discrete}
use linux_cpp.ThreadPool.{
  ThreadPool, Pc, ready, woken, busy, quit, take_or_wait, handler_task, handler_woken, equeue,
  System, Signal, no_signal, unheard, heard, ThreadStep, work, resume, spurious, finish,
}

-- `task` stands in the list.
pub data Among {ℓ} {A : Type ℓ} (task : A) : List A → Type ℓ where
  here : {xs : List A} → Among task (task ∷ xs)
  there : {x : A} {xs : List A} → Among task xs → Among task (x ∷ xs)

pub Among-append_left {ℓ} :
    {A : Type ℓ} {task : A} {xs : List A} (ys : List A) → Among task xs → Among task (xs ++ ys)
Among-append_left ys here = here
Among-append_left ys (there m) = there (Among-append_left ys m)

pub Among-append_right {ℓ} :
    {A : Type ℓ} {task : A} (xs : List A) {ys : List A} → Among task ys → Among task (xs ++ ys)
Among-append_right [] m = m
Among-append_right (x ∷ xs) m = there (Among-append_right xs m)

module _ {T : Type 0} where
  -- Every task that a thread runs is in the list.
  abbrev pub Runs : List T → List (Pc T) → Type 0
  Runs tasks threads = (i : ℕ) (t : T) → get_or threads i quit ≡ busy t → Among t tasks

  set-Runs :
      {tasks : List T} (threads : List (Pc T))
      → Runs tasks threads
      → (i : ℕ) (p : Pc T) → i < length threads
      → ((t : T) → p ≡ busy t → Among t tasks)
      → Runs tasks (set threads i p)
  set-Runs threads r i p lt h j t e = elim (ℕ_discrete i j) [
    | yes q ↦ h t (
        sym (get_or-set_self threads i p quit lt) ∙ ap (λ k. get_or (set threads i p) k quit) q ∙ e)
    | no ne ↦ r j t (sym (get_or-set_ne threads i j p quit ne) ∙ e)
  ]

  -- The accepted tasks are not touched when a thread tests the queue, and the task that it takes is
  -- one of them.
  take-Among :
      (p : ThreadPool T) (q : List T)
      → p.accepted ≡ p.taken ++ q
      → ((take_or_wait T q p).0.accepted ≡ p.accepted)
        × ((t : T) → (take_or_wait T q p).1 ≡ busy t → Among t p.accepted)
  unfolding take_or_wait
  take-Among p [] e =
      if_split
        (λ (r : ThreadPool T × Pc T).
          (r.0.accepted ≡ p.accepted) × ((t : T) → r.1 ≡ busy t → Among t p.accepted))
        p.isrunning (λ r. (refl, λ t b. absurd (ground (arith, b))))
        (λ r. (refl, λ t b. absurd (ground (arith, b))))
  take-Among p (x ∷ q) e = (
    refl,
    λ t b.
        subst (Among t) (sym e)
          (Among-append_right p.taken (subst (λ y. Among y (x ∷ q)) (ground (arith, b)) here)),
  )

  pub step-Runs :
      {s t : System T}
      → ThreadStep T s t
      → s.pool.accepted ≡ s.pool.taken ++ s.pool.task_queue
      → Runs s.pool.accepted s.threads
      → (t.pool.accepted ≡ s.pool.accepted) × Runs s.pool.accepted t.threads
  unfolding handler_task handler_woken
  step-Runs {s} (work i lt e) f r =
      let h = take-Among s.pool s.pool.task_queue f in (h.0, set-Runs _ r i _ lt h.1)
  step-Runs {s} (resume i lt e) f r =
      let h =
        take-Among (record s.pool { sleep_thread_num = s.pool.sleep_thread_num - 1 })
          s.pool.task_queue f in
      (h.0, set-Runs _ r i _ lt h.1)
  step-Runs (spurious i lt e) f r =
      (refl, set-Runs _ r i woken lt (λ t b. absurd (ground (arith, b))))
  step-Runs (finish i t lt e) f r =
      (refl, set-Runs _ r i ready lt (λ t b. absurd (ground (arith, b))))

  pub Signal-Runs :
      {tasks : List T} {ts us : List (Pc T)} {b : Bool}
      → Signal T ts b us
      → Runs tasks ts
      → Runs tasks us
  Signal-Runs no_signal r = r
  Signal-Runs (unheard e) r = r
  Signal-Runs (heard i lt e) r = set-Runs _ r i woken lt (λ t b. absurd (ground (arith, b)))

  take-isrunning : (q : List T) (p : ThreadPool T) → (take_or_wait T q p).0.isrunning ≡ p.isrunning
  unfolding take_or_wait
  take-isrunning [] p =
      if_both (λ (r : ThreadPool T × Pc T). r.0.isrunning ≡ p.isrunning) p.isrunning refl refl
  take-isrunning (x ∷ q) p = refl

  pub step-isrunning : {s t : System T} → ThreadStep T s t → t.pool.isrunning ≡ s.pool.isrunning
  unfolding handler_task handler_woken
  step-isrunning {s} (work i lt e) = take-isrunning s.pool.task_queue s.pool
  step-isrunning {s} (resume i lt e) =
      take-isrunning s.pool.task_queue
        (record s.pool { sleep_thread_num = s.pool.sleep_thread_num - 1 })
  step-isrunning (spurious i lt e) = refl
  step-isrunning (finish i t lt e) = refl

  pub equeue-running :
      (t : T) (p : ThreadPool T)
      → p.isrunning ≡ true
      → ((equeue T t p).0.accepted ≡ p.accepted ++ t ∷ []) × ((equeue T t p).0.isrunning ≡ true)
  unfolding equeue
  equeue-running t p e =
      if_split
        (λ (r : ThreadPool T × Bool).
          (r.0.accepted ≡ p.accepted ++ t ∷ []) × (r.0.isrunning ≡ true))
        p.isrunning (λ r. (refl, r)) (λ r. absurd (ground (arith, r, e)))
