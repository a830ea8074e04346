-- ===== src/ChatServer/Invariant.antt =====
-- What holds of the chat server in every reachable state.
use mathlib.Core.List.{append-nil}
use linux_cpp.Common.{
  ℕ, zero, suc, ◌+◌, ◌<◌, ◌≡◌, refl, sym, ap, subst, ◌∙◌, [], ◌∷◌, true, Bytes, ℤ, length,
  length-append, get_or, replicate, arith, if_both, if_split, List, ◌++◌, map, map-append, ltz, pos,
}
use linux_cpp.Os.{Os, Trace, Extends, same, more}
use linux_cpp.Socket.{c_string, filled}
use linux_cpp.Route.{InetAddr, Users, Task, is_quit, forward_helper}
use linux_cpp.Route.Online.{Distinct, check-Distinct, offline-Distinct}
use linux_cpp.ThreadPool.{
  System, ThreadStep, Reach, start, later, worker, submit, work, resume, spurious, finish, ready,
  busy, quit,
}
use linux_cpp.ThreadPool.Invariant.{Reach-Inv}
use linux_cpp.ThreadPool.Taken.{
  Runs, Among, Among-append_left, step-Runs, Signal-Runs, step-isrunning, equeue-running,
}
use linux_cpp.UdpServer.Replies.{datagrams}
use linux_cpp.ChatServer.{
  ChatServer, to_host, Pc, listening, checking, leaving, queueing, sends, hear, forward_task,
  ChatStep, hears, checks, leaves, queues, serves, ChatReach, begin, next,
}
use linux_cpp.ChatServer.Sent.{Sends, reads, Sends-append, Extends-weaken, sends-Sends}

-- A datagram that the main thread has and that is not yet in the queue.
abbrev pub pending : Pc → ℕ
pending listening = 0
pending (checking message who) = 1
pending (leaving message who) = 1
pending (queueing message who) = 1

-- What the main thread has and has not yet put in the queue.
abbrev pub held : Pc → List (Bytes × InetAddr)
held listening = []
held (checking message who) = (message, who) ∷ []
held (leaving message who) = (message, who) ∷ []
held (queueing message who) = (message, who) ∷ []

-- The message and the sender that a task carries.
abbrev pub content : Task → Bytes × InetAddr
content task = (task.message, task.who)

pub record ChatInv (n : ℕ) (c : ChatServer) : Type 0 where
  pub pool : Reach Task n c.system
  pub running : c.system.pool.isrunning ≡ true
  pub users : Distinct c.users
  pub balance : datagrams c.trace ≡ length c.system.pool.accepted + pending c.main
  pub heard : c.heard ≡ map content c.system.pool.accepted ++ held c.main
  pub runs : Runs c.system.pool.accepted c.system.threads
  pub sent : Extends (Sends c.system.pool.accepted) [] c.trace

datagrams-forward :
    (task : Task) (users : Users) (t : Trace)
    → datagrams (forward_helper task users t) ≡ datagrams t
unfolding datagrams forward_helper
datagrams-forward task [] t = refl
datagrams-forward task (user ∷ users) t = datagrams-forward task users _

datagrams-sends :
    {s t : System Task} (step : ThreadStep Task s t) (users : Users) (trace : Trace)
    → datagrams (sends step users trace) ≡ datagrams trace
unfolding sends
datagrams-sends (work i lt e) users trace = refl
datagrams-sends (resume i lt e) users trace = refl
datagrams-sends (spurious i lt e) users trace = refl
datagrams-sends (finish i task lt e) users trace = datagrams-forward task users trace

-- While the main thread holds nothing, all that was heard is accepted.
settled :
    {n : ℕ} {c : ChatServer}
    → c.main ≡ listening
    → ChatInv n c
    → c.heard ≡ map content c.system.pool.accepted
settled {n} {c} e v =
    v.heard
    ∙ ap (λ m. map content c.system.pool.accepted ++ held m) e
    ∙ append-nil (map content c.system.pool.accepted)

module _ (os : Os) (ntoa : ℕ → Bytes) (sockfd : ℤ) where
  hear-Inv :
      {n : ℕ} {c : ChatServer}
      → c.main ≡ listening
      → ChatInv n c
      → ChatInv n (hear os ntoa sockfd c)
  unfolding hear datagrams
  hear-Inv {n} {c} e v =
      let answer = os.recvfrom c.trace sockfd 1023 in
      let message = c_string (filled answer.n answer.buffer) in
      let who = to_host ntoa answer.peer in
      if_split (ChatInv n) (ltz (pos 0) answer.n)
        (λ some_bytes. record {
          pool = v.pool;
          running = v.running;
          users = v.users;
          balance = ground (arith, v.balance, ap pending e, some_bytes);
          heard = ap (λ l. l ++ ((message, who) ∷ [])) (settled e v);
          runs = v.runs;
          sent = more reads v.sent;
        })
        (λ empty. record {
          pool = v.pool;
          running = v.running;
          users = v.users;
          balance = ground (arith, v.balance, ap pending e, empty);
          heard = v.heard ∙ ap (λ m. map content c.system.pool.accepted ++ held m) e;
          runs = v.runs;
          sent = more reads v.sent;
        })

  serve-Inv :
      {n : ℕ} {c : ChatServer} {s : System Task} (step : ThreadStep Task c.system s)
      → 0 < n
      → ChatInv n c
      → ChatInv n (record c { system = s; trace = sends step c.users c.trace })
  serve-Inv {n} {c} {s} step some_thread v =
      let r = step-Runs step (Reach-Inv some_thread v.pool).fifo v.runs in
      let same_tasks = r.0 in
      record {
        pool = later v.pool (worker step);
        running = step-isrunning step ∙ v.running;
        users = v.users;
        balance =
            datagrams-sends step c.users c.trace
            ∙ v.balance
            ∙ ap (λ l. length l + pending c.main) (sym same_tasks);
        heard = v.heard ∙ ap (λ l. map content l ++ held c.main) (sym same_tasks);
        runs = subst (λ l. Runs l s.threads) (sym same_tasks) r.1;
        sent =
            subst (λ l. Extends (Sends l) [] (sends step c.users c.trace)) (sym same_tasks)
              (sends-Sends step c.users c.trace v.runs v.sent);
      }

  -- A move of the main thread that touches only the list of users.
  users-Inv :
      {n : ℕ} {c : ChatServer} (main : Pc) (users : Users)
      → pending main ≡ pending c.main
      → held main ≡ held c.main
      → Distinct users
      → ChatInv n c
      → ChatInv n (record c { main = main; users = users })
  users-Inv {c = c} main users e k d v = record {
    pool = v.pool;
    running = v.running;
    users = d;
    balance = omega (arith, v.balance, e);
    heard = v.heard ∙ ap (λ l. map content c.system.pool.accepted ++ l) (sym k);
    runs = v.runs;
    sent = v.sent;
  }

  pub ChatStep-Inv :
      {n : ℕ} {c d : ChatServer} → 0 < n → ChatStep os ntoa sockfd c d → ChatInv n c → ChatInv n d
  ChatStep-Inv some_thread (hears e) v = hear-Inv e v
  ChatStep-Inv {n} {c} some_thread (checks message who e) v =
      users-Inv _ _
        (if_both (λ m. pending m ≡ pending c.main) (is_quit message) (sym (ap pending e))
          (sym (ap pending e)))
        (if_both (λ m. held m ≡ held c.main) (is_quit message) (sym (ap held e)) (sym (ap held e)))
        (check-Distinct who c.users v.users) v
  ChatStep-Inv {n} {c} some_thread (leaves message who e) v =
      users-Inv _ _ (sym (ap pending e)) (sym (ap held e)) (offline-Distinct who c.users v.users) v
  ChatStep-Inv {n} {c} some_thread (queues message who e g) v =
      let task = forward_task os ntoa sockfd message who in
      let q = equeue-running task c.system.pool v.running in
      record {
        pool = later v.pool (submit task g);
        running = q.1;
        users = v.users;
        balance = omega (
          arith,
          v.balance,
          ap pending e,
          ap length q.0,
          length-append c.system.pool.accepted (task ∷ []),
        );
        heard =
            v.heard
            ∙ ap (λ m. map content c.system.pool.accepted ++ held m) e
            ∙ sym (map-append content c.system.pool.accepted (task ∷ []))
            ∙ ap (map content) (sym q.0)
            ∙ sym (append-nil _);
        runs = λ i t b.
            subst (Among t) (sym q.0) (Among-append_left (task ∷ []) (Signal-Runs g v.runs i t b));
        sent =
            subst (λ l. Extends (Sends l) [] c.trace) (sym q.0)
              (Extends-weaken (Sends-append c.system.pool.accepted (task ∷ [])) v.sent);
      }
  ChatStep-Inv some_thread (serves step) v = serve-Inv step some_thread v

  begin-Runs : (n i : ℕ) (t : Task) → get_or (replicate n ready) i quit ≡ busy t → Among t []
  begin-Runs zero i t e = absurd (ground (arith, e))
  begin-Runs (suc n) zero t e = absurd (ground (arith, e))
  begin-Runs (suc n) (suc i) t e = begin-Runs n i t e

  ChatReach-Inv : {n : ℕ} {c : ChatServer} → 0 < n → ChatReach os ntoa sockfd n c → ChatInv n c
  unfolding datagrams
  ChatReach-Inv {n} some_thread begin = record {
    pool = start;
    running = refl;
    users = tt;
    balance = omega arith;
    heard = refl;
    runs = begin-Runs n;
    sent = same;
  }
  ChatReach-Inv some_thread (next r step) =
      ChatStep-Inv some_thread step (ChatReach-Inv some_thread r)

  -- Whatever the operating system answers and however the main thread and the pool's interleave, in
  -- every reachable state of a chat server whose pool has a thread or more, no user is listed twice.
  pub ChatReach-Distinct :
      (n : ℕ) (c : ChatServer) → 0 < n → ChatReach os ntoa sockfd n c → Distinct c.users
  ChatReach-Distinct n c some_thread r = (ChatReach-Inv some_thread r).users

  -- In every such state, the messages and the senders of the datagrams that were not empty, in the
  -- order in which they were received, are those of the tasks that threads have taken, then those of
  -- the tasks in the queue, then the one that the main thread holds, if any; and so many are the
  -- datagrams in the history of the calls.
  pub ChatReach-balanced :
      (n : ℕ) (c : ChatServer)
      → 0 < n
      → ChatReach os ntoa sockfd n c
      → (datagrams c.trace
          ≡ length c.system.pool.taken + length c.system.pool.task_queue + pending c.main)
        × (c.heard ≡ map content (c.system.pool.taken ++ c.system.pool.task_queue) ++ held c.main)
  ChatReach-balanced n c some_thread r =
      let v = ChatReach-Inv some_thread r in
      let fifo = (Reach-Inv some_thread v.pool).fifo in
      (
        omega (
          arith,
          v.balance,
          ap length fifo,
          length-append c.system.pool.taken c.system.pool.task_queue,
        ),
        v.heard ∙ ap (λ l. map content l ++ held c.main) fifo,
      )

  -- In every such state, each call made so far has read from the socket or has sent the message of
  -- a task that the pool accepted.
  pub ChatReach-Sends :
      (n : ℕ) (c : ChatServer)
      → 0 < n
      → ChatReach os ntoa sockfd n c
      → Extends (Sends c.system.pool.accepted) [] c.trace
  ChatReach-Sends n c some_thread r = (ChatReach-Inv some_thread r).sent

  -- The pool inside a chat server is one: each of its states is a reachable state of a thread pool
  -- with as many threads, of one thread or more, and it is never stopped.
  pub ChatReach-Reach :
      (n : ℕ) (c : ChatServer)
      → 0 < n
      → ChatReach os ntoa sockfd n c
      → Reach Task n c.system × (c.system.pool.isrunning ≡ true)
  ChatReach-Reach n c some_thread r = let v = ChatReach-Inv some_thread r in (v.pool, v.running)
