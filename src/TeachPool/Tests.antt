-- ===== src/TeachPool/Tests.antt =====
-- Two threads; the first sleeps, and a push wakes it.
use linux_cpp.Common.{ℕ, arith, refl, [], ◌∷◌}
use linux_cpp.TeachPool.{ready, woken, Pool, handler_task, handles, push_wakes, Reach, start, later}
use linux_cpp.TeachPool.Sleepers.{Inv, Reach-Inv}

abbrev pushed_once : Pool ℕ
pushed_once = record { tasks = 7 ∷ []; threads = woken ∷ ready ∷ []; pushed = 7 ∷ []; taken = [] }

pushed_once-Reach : Reach ℕ 2 pushed_once
unfolding handler_task
pushed_once-Reach =
    later (later start (handles 0 (omega arith) refl)) (push_wakes 7 0 (omega arith) refl)

Reach-Inv_example : Inv pushed_once
Reach-Inv_example = Reach-Inv pushed_once-Reach
