-- ===== src/ThreadPool/Tests.antt =====
-- Two threads, one task, and a stop: a run of the pool.
use linux_cpp.Common.{
  ℕ, ◌*◌, ◌≤◌, ◌<◌, ◌≡◌, ◌⊎◌, refl, List, [], ◌≢◌, get_or, ◌∷◌, ◌++◌, ◌+◌, Bool, true, false, Bytes,
  codes, total, arith,
}
use linux_cpp.ThreadPool.{
  quit, ready, busy, take_or_wait, handler_task, handler_woken, equeue, stop, System, heard, worker,
  ThreadStep, work, resume, finish, submit, stops, Reach, start, later, thread_names,
}
use linux_cpp.ThreadPool.Stopping.{measure, Runs, stay, go, Runs-bounded, Reach-ends}
use linux_cpp.ThreadPool.Counts.{awake, gone}
use linux_cpp.ThreadPool.Service.{Reach-awake}
use linux_cpp.ThreadPool.Singleton.{absent, constructed}
use linux_cpp.ThreadPool.Singleton.Once.{early, Reach-once, Reach-early}

names_2 : thread_names 2 0 ≡ codes "thread-1" ∷ codes "thread-2" ∷ []
unfolding thread_names linux_cpp.Common.to_string
names_2 = refl

-- The second thread sleeps, a task comes and wakes it; it takes the task.
abbrev state_2 : System ℕ
state_2 = record {
  pool = record {
    task_queue = [];
    isrunning = true;
    sleep_thread_num = 0;
    accepted = 7 ∷ [];
    taken = 7 ∷ [];
  };
  threads = ready ∷ busy 7 ∷ [];
}

run_2 : Reach ℕ 2 state_2
unfolding handler_task take_or_wait handler_woken equeue
run_2 =
    later
      (later (later start (worker (work 1 (omega arith) refl)))
        (submit 7 (heard 1 (omega arith) refl)))
      (worker (resume 1 (omega arith) refl))

-- The pool is stopped and both threads leave.
abbrev state_3 : System ℕ
state_3 = record {
  pool = record {
    task_queue = [];
    isrunning = false;
    sleep_thread_num = 0;
    accepted = 7 ∷ [];
    taken = 7 ∷ [];
  };
  threads = quit ∷ quit ∷ [];
}

run_3 : Reach ℕ 2 state_3
unfolding handler_task take_or_wait stop
run_3 =
    later
      (later (later (later run_2 stops) (worker (work 0 (omega arith) refl)))
        (worker (finish 1 7 (omega arith) refl)))
      (worker (work 1 (omega arith) refl))

Reach-awake_example : (state_2.pool.task_queue ≡ []) ⊎ (0 < total awake state_2.threads)
Reach-awake_example = Reach-awake 2 state_2 (omega arith) run_2

-- The pool just after the stop, and two steps of its threads.
abbrev state_stopped : System ℕ
state_stopped = record {
  pool = record state_2.pool { isrunning = false };
  threads = state_2.threads;
}

run_stopped : Reach ℕ 2 state_stopped
unfolding stop
run_stopped = later run_2 stops

abbrev state_leaving : System ℕ
state_leaving = record { pool = state_stopped.pool; threads = quit ∷ ready ∷ [] }

two_steps : Runs state_stopped 2 state_leaving
unfolding handler_task take_or_wait
two_steps = go (go stay (work 0 (omega arith) refl)) (finish 1 7 (omega arith) refl)

Runs-bounded_example : 2 ≤ 2 * 0 + 2 * 2
Runs-bounded_example =
    Runs-bounded 2 state_stopped 2 state_leaving (omega arith) run_stopped refl two_steps

Reach-ends_example :
    ((t : System ℕ) × ThreadStep ℕ state_stopped t
      × (measure t.pool t.threads < measure state_stopped.pool state_stopped.threads))
    ⊎ (total gone state_stopped.threads ≡ 2)
      × (state_stopped.pool.taken ≡ state_stopped.pool.accepted)
Reach-ends_example = Reach-ends 2 state_stopped (omega arith) run_stopped refl

Reach-once_example : ((early 1).mem.created ≡ 1) × (constructed ≢ absent)
Reach-once_example = Reach-once 1 constructed (Reach-early 1) refl
