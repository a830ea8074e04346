-- ===== src/ChatClient.antt =====
-- Socket/3. chat_server/UdpClientMain.cc, the client of the chat: the two loops that `main` runs
-- in two threads and waits for. What socket, recvfrom, getline and sendto answer are arguments;
-- getline leaves an empty line at the end of the input. The loops share the socket only.
pub mod Session
mod Tests
use linux_cpp.Common.{
  ℕ, zero, suc, List, [], ◌∷◌, if◌then◌else◌, ℤ, pos, ltz, Bytes, Option, none, some, map_option,
}
use linux_cpp.Os.{Received}
use linux_cpp.Socket.{c_string, filled}

-- `InitClient`: the socket, or the exit with status 1.
pub init_client : (socket : ℤ) → Option ℤ
init_client socket = if ltz socket (pos 0) then none else some socket

-- `RecvMessage` from its `k`th turn on, with `fuel` for its turns: the texts printed.
pub recv_message : (recvfrom : ℕ → Received) → (fuel k : ℕ) → Option (List Bytes)
unfolding c_string
recv_message recvfrom zero k = none
recv_message recvfrom (suc fuel) k =
    let rest = recv_message recvfrom fuel (suc k) in
    let answer = recvfrom k in
    if ltz (pos 0) answer.n
    then map_option (λ texts. c_string (filled answer.n answer.buffer) ∷ texts) rest
    else some []

-- `SendMessage`: the lines given to sendto.
pub send_message :
    (getline : ℕ → Bytes) → (sendto : ℕ → Bytes → ℤ) → (fuel k : ℕ) → Option (List Bytes)
send_message getline sendto zero k = none
send_message getline sendto (suc fuel) k =
    let line = getline k in
    let rest = send_message getline sendto fuel (suc k) in
    if ltz (pos 0) (sendto k line)
    then map_option (λ lines. line ∷ lines) rest
    else some (line ∷ [])

-- What `main` comes to: it exits, has joined both threads, or still waits for one.
pub data Outcome : Type 0 where
  exited : (status : ℕ) → Outcome
  closed : (sockfd : ℤ) → (printed sent : List Bytes) → Outcome
  joining : Outcome

-- The two threads on a socket, joined in this order.
pub join : Option ℤ → (recver sender : Option (List Bytes)) → Outcome
join none recver sender = exited 1
join (some sockfd) none sender = joining
join (some sockfd) (some printed) none = joining
join (some sockfd) (some printed) (some sent) = closed sockfd printed sent

pub main :
    (recvfrom : ℕ → Received) (getline : ℕ → Bytes) (sendto : ℕ → Bytes → ℤ)
    → (socket : ℤ) → (fuel : ℕ) → Outcome
unfolding init_client join
main recvfrom getline sendto socket fuel =
    join (init_client socket) (recv_message recvfrom fuel 0) (send_message getline sendto fuel 0)
