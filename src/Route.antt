-- ===== src/Route.antt =====
-- Socket/3. chat_server/Route.hpp and InetAddr.hpp: the list of online users of the chat server, and
-- the messages forwarded to them. Each method runs under `_mutex`, so the calls of several threads
-- are taken one after another.
pub mod Online
pub mod Messages
mod Tests
use linux_cpp.Common.{
  ℕ, List, [], ◌∷◌, ◌++◌, Bool, true, false, if◌then◌else◌, ◌&&◌, ◌||◌, ◌==◌, ℤ, Bytes, codes,
  bytes_eq, to_string,
}
use linux_cpp.Os.{Trace, SockAddr, sent_to}

pub record InetAddr : Type 0 where
  pub ip : Bytes
  pub port : ℕ
  pub addr : SockAddr

-- `operator==` compares the address and the port.
unfoldable pub same_user : InetAddr → InetAddr → Bool
same_user a b = bytes_eq a.ip b.ip && a.port == b.port

unfoldable pub addr_str : InetAddr → Bytes
addr_str a = a.ip ++ (codes ":" ++ to_string a.port)

abbrev pub Users : Type 0
Users = List InetAddr

-- The loop of `CheckOnlineUser`: whether some user is `who`.
unfoldable pub is_online : InetAddr → Users → Bool
unfolding same_user
is_online who [] = false
is_online who (user ∷ users) = same_user user who || is_online who users

unfoldable pub check_online_user : InetAddr → Users → Users
unfolding is_online
check_online_user who users = if is_online who users then users else users ++ who ∷ []

-- The first user that is `who` is erased.
pub offline : InetAddr → Users → Users
unfolding same_user
offline who [] = []
offline who (user ∷ users) = if same_user user who then users else (user ∷ offline who users)

-- The task that `Forward` binds for the thread pool.
pub record Task : Type 0 where
  pub sockfd : ℤ
  pub message : Bytes
  pub who : InetAddr

abbrev pub is_quit : Bytes → Bool
is_quit message = bytes_eq message (codes "QUIT") || bytes_eq message (codes "Q")

-- `Forward`: the users, and the task that goes to the thread pool.
pub forward : ℤ → Bytes → InetAddr → Users → Users × Task
unfolding check_online_user offline
forward sockfd message who users =
    let known = check_online_user who users in
    (
      (if is_quit message then offline who known else known),
      record { sockfd = sockfd; message = message; who = who },
    )

unfoldable pub send_message : Task → Bytes
unfolding addr_str
send_message task = codes "[" ++ (addr_str task.who ++ (codes "]# " ++ task.message))

-- `ForwardHelper`, run by a thread of the pool on the users of that moment.
unfoldable pub forward_helper : Task → Users → Trace → Trace
unfolding send_message
forward_helper task [] t = t
forward_helper task (user ∷ users) t =
    forward_helper task users (sent_to task.sockfd (send_message task) user.addr ∷ t)
