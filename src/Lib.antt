-- ===== src/Lib.antt =====
-- A verification library for the servers and the concurrent containers of this repository.
--
-- The programs are separate; the servers share one socket class. What each file models:
--
-- - Os.antt: the system calls of the servers. The operating system is a parameter, a record of
--   functions from the calls made so far to an answer, so that a theorem about every `Os` is one
--   about every behaviour of the kernel and of the peers. A trace lists the calls, newest first.
-- - Socket.antt: `TcpSocket` of IO/1.epollserver/Socket.hpp, of which the select and the poll server
--   hold copies. `exit` is an outcome of its own: a run is `done` with a value or `exited` with a
--   status.
-- - SelectServer.antt: IO/SelectServer/SelectServer.hpp. `fd_array` is a list of descriptors;
--   `handler_event` and `loop` are `HandlerEvent` and `Loop`. The field `fault` is set when FD_SET or
--   FD_ISSET is called for a descriptor of FD_SETSIZE or more.
-- - PollServer.antt: IO/Pollserver/PollServer.hpp. `fd_events` is a list of pollfd; poll writes
--   `revents` only.
-- - WatchSet.antt: what the tables of these two servers stand for, a multiset of descriptors, as a
--   quotient of lists; WatchSet/Replay.antt relates the tables to the history of the calls.
-- - EpollServer.antt: IO/1.epollserver/EpollServer.hpp, with the call of `HandlerEvent` in `Loop`
--   commented out as it is there; `handler_event` is modelled beside it. EpollServer/Interest.antt relates
--   the calls of epoll_ctl to the history, by WatchSet.antt.
-- - UdpServer.antt: Socket/2. dict_server/UdpServer.hpp, which gives each datagram to a function, an
--   argument here as its `main` gives none, and the reply of Socket/1. udp_echo_server.
-- - UdpClient.antt: Socket/1. udp_echo_server/UdpClientMain.cc; UdpClient/Conversation.antt puts it before a
--   server, with no datagram lost between them.
-- - TcpClient.antt: Socket/5.command_server/TcpClientMain.cc; TcpClient/Conversation.antt puts it before
--   `handler_command` of Command.antt, each text being read whole.
-- - CalSocket.antt: Socket/6.cal_server/Socket.hpp, a variant of `TcpSocket`; CalSocket/Agree.antt compares
--   the two.
-- - Dict.antt: Socket/2. dict_server/Dict.hpp over the lines of the file.
-- - Route.antt: Socket/3. chat_server/Route.hpp and InetAddr.hpp, the online users of the chat.
-- - ThreadPool.antt: Socket/3. chat_server/ThreadPool.hpp, which runs the tasks that `Forward` of
--   Route.hpp queues: a step relation in which a step is what one thread does between taking and
--   giving up the mutex. ThreadPool/Singleton.antt is `GetInstance`, with a step for each access to
--   shared memory.
-- - TeachPool.antt: Thread_Pool/Teach_ThreadPool.hpp, an earlier pool that is never stopped, with the same
--   steps.
-- - ChatServer.antt: Socket/3. chat_server/UdpServer.hpp and UdpServerMain.cc, the main thread that
--   receives datagrams and runs `Forward`, in one step relation with the threads of the pool; it
--   composes Route.antt and ThreadPool.antt. ChatServer/Setup.antt is what comes before and after.
-- - ChatClient.antt: Socket/3. chat_server/UdpClientMain.cc, the two loops of the chat's client, with fuel for
--   their turns, and `main`, which joins them.
-- - TcpServer.antt: Socket/5.command_server/TcpServer.hpp, the accepting loop and the thread of each
--   connection, which runs `handler_command` of Command.antt.
-- - EchoServer.antt: Socket/4. tcp_echo_server/TcpServer.hpp; `service` has fuel for the reads of a
--   client, enough when it is larger than the number of reads in which the client answers.
-- - ProcessPool.antt: 2.ProcessPool/ProcessPool.cc and Task.hpp; a process is the table of the pipe ends
--   that it holds, and fork copies it.
-- - Command.antt: Socket/5.command_server/Command.hpp over a parameter for popen.
-- - RingQueue.antt: 11.sem_cp/RingQueue.hpp, a step relation in which each access to shared memory
--   is a step of some thread.
-- - BlockQueue.antt: 10.blockqueue/BlockQueue.hpp with one consumer and one producer, as in main.cc;
--   the file does not compile as it stands, and its misspelt calls are read as those meant.
-- - Task.antt: Thread_Pool/Task.hpp over a 32-bit int; `none` stands for undefined behaviour.
-- - Log.antt: Http/Log.hpp, of which each server holds a copy: levels, time stamps, records, and the
--   screen and the file. The text that a format and its arguments stand for is a parameter.
-- - NamedPipe.antt: 3.fifo/namedPipe.hpp and the main of server.cc over the answers of read.
-- - TestPipe.antt: 1.testPipe/testpipe.cc, a child and its father at the two ends of a pipe, with the ends
--   that each holds, as a step relation.
-- - Shm.antt: 4.shm/Shm.hpp over parameters for shmget and shmat; that shmget with IPC_EXCL fails for a
--   segment that exists, and that shmat answers -1 for a negative id, are hypotheses.
-- - Thread.antt: Thread/Thread.hpp, and the threads of Thread/Main.cc that sell tickets, as a step
--   relation; the decrement, which no lock guards, is a load and a store.
-- - Daemon.antt: ProtectProcess/Daemon.hpp over what each descriptor stands for and what fork, setsid,
--   chdir and open answer.
-- - NonBlock.antt: IO/TestNonBlock/Comm.hpp and the echo loop of Main.cc.
-- - Reactor.antt: IO/2.epollserver_v2/Connection.hpp and the table of connections of TcpServer.hpp;
--   Reactor/Setup.antt is Epoller.hpp and Listener.hpp.
-- - Common.antt and its children: Boolean tests, integers, bytes, lists, counts and sums.
--
-- Bounds and fuel. `Loop` of a server never returns; `loop` runs it for a number of rounds that is
-- an argument, and what is proved of it holds for every such number. The loops over a table of
-- `gnum` slots are recursive on the number of slots left, which is `gnum` at the start, so that no
-- slot is left out. The loops of `work2`, of the server of the named pipe, of the clients and of
-- the echo program have fuel for their reads; a read takes one, and a description of the answers
-- says within how many reads the loop ends. Step relations have no fuel. Descriptors and results
-- of calls are integers; a descriptor is a non-negative one. The select and the poll server take
-- what accept gives for a descriptor only when it is positive, so that they lose descriptor 0
-- where standard input is closed: `NotZero` of Os.antt says that accept does not give it, and
-- `Ordinary` also that the descriptors are below a limit, for select FD_SETSIZE. Lengths and ports
-- are natural numbers that the code only compares or prints.
--
-- Not modelled: Thread_Pool/My_Thread_Pool_Test.hpp, whose constructor writes through an empty
-- vector; the loops of 4.shm/client.cc and server.cc; the calls of the log in the other parts,
-- which change none of their state; pthread_create and join, but in Thread.antt and TcpServer.antt; byte order and
-- the text of addresses, which an address holds as the library functions gave them; termination by
-- a signal, except in TestPipe.antt; the programs that show one system call each; the loop of
-- IO/2.epollserver_v2, which the source does not have yet; and the copies that the repository
-- keeps of a file that is modelled.
pub mod BlockQueue
pub mod CalSocket
pub mod ChatClient
pub mod ChatServer
pub mod Command
pub mod Common
pub mod Daemon
pub mod Dict
pub mod EchoServer
pub mod EpollServer
pub mod Log
pub mod NamedPipe
pub mod NonBlock
pub mod Os
pub mod PollServer
pub mod ProcessPool
pub mod Reactor
pub mod RingQueue
pub mod Route
pub mod SelectServer
pub mod Shm
pub mod Socket
pub mod Task
pub mod TcpClient
pub mod TcpServer
pub mod TeachPool
pub mod TestPipe
pub mod Thread
pub mod ThreadPool
pub mod UdpClient
pub mod UdpServer
pub mod WatchSet
