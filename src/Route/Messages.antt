-- ===== src/Route/Messages.antt =====
-- What one message costs on the wire.
use linux_cpp.Common.{◌≡◌, refl, [], ◌∷◌, ◌++◌, codes, map}
use mathlib.Core.List.{reverse, reverse-cons, append_assoc}
use linux_cpp.Os.{Trace, Event, sent_to}
use linux_cpp.Route.{InetAddr, Users, Task, addr_str, send_message, forward_helper}

abbrev pub message_to : Task → InetAddr → Event
message_to task user =
    sent_to task.sockfd (codes "[" ++ (addr_str task.who ++ (codes "]# " ++ task.message)))
      user.addr

-- A task that a thread of the pool runs sends the message, with the sender's address in front, once
-- to each user online at that moment, in the order of the list, and makes no other call.
pub forward_helper-map :
    (task : Task) (users : Users) (t : Trace)
    → forward_helper task users t ≡ reverse (map (message_to task) users) ++ t
unfolding forward_helper send_message
forward_helper-map task [] t = refl
forward_helper-map task (user ∷ users) t =
    simp (forward_helper-map task users, reverse-cons, append_assoc)
