-- ===== src/ChatServer/Sent.antt =====
-- What is on the wire.
use linux_cpp.Common.{List, [], ◌∷◌, ◌++◌}
use linux_cpp.Os.{Trace, Event, received, sent_to, Extends, same, more}
use linux_cpp.Route.{Users, Task, send_message, forward_helper}
use linux_cpp.ThreadPool.{System, ThreadStep, work, resume, spurious, finish}
use linux_cpp.ThreadPool.Taken.{Among, Among-append_left, Runs}
use linux_cpp.ChatServer.{sends}

-- The call reads a datagram, or sends the message of one of the tasks.
pub data Sends (tasks : List Task) : Event → Type 0 where
  reads : {fd n : _} → Sends tasks (received fd n)
  forwards :
      {fd peer : _} (task : Task)
      → Among task tasks
      → Sends tasks (sent_to fd (send_message task) peer)

pub Extends-weaken :
    {P Q : Event → Type 0} {old t : Trace}
    → ((e : Event) → P e → Q e)
    → Extends P old t
    → Extends Q old t
Extends-weaken h same = same
Extends-weaken h (more p x) = more (h _ p) (Extends-weaken h x)

pub Sends-append :
    (tasks more_tasks : List Task) (e : Event) → Sends tasks e → Sends (tasks ++ more_tasks) e
Sends-append tasks more_tasks e reads = reads
Sends-append tasks more_tasks e (forwards task m) = forwards task (Among-append_left more_tasks m)

forward_helper-Sends :
    {tasks : List Task} (task : Task) (users : Users) (t : Trace)
    → Among task tasks
    → Extends (Sends tasks) [] t
    → Extends (Sends tasks) [] (forward_helper task users t)
unfolding forward_helper
forward_helper-Sends task [] t m x = x
forward_helper-Sends task (user ∷ users) t m x =
    forward_helper-Sends task users _ m (more (forwards task m) x)

pub sends-Sends :
    {tasks : List Task} {s t : System Task} (step : ThreadStep Task s t) (users : Users)
    (trace : Trace)
    → Runs tasks s.threads
    → Extends (Sends tasks) [] trace
    → Extends (Sends tasks) [] (sends step users trace)
unfolding sends
sends-Sends (work i lt e) users trace r x = x
sends-Sends (resume i lt e) users trace r x = x
sends-Sends (spurious i lt e) users trace r x = x
sends-Sends (finish i task lt e) users trace r x =
    forward_helper-Sends task users trace (r i task e) x
