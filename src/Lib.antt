-- ===== src/Lib.antt =====
-- A multi-threaded epoll echo server and its test client.
--
-- main.cpp reads a configuration file into the global SERVER record and starts a ListenThread
-- (ListenThread.cpp), which accepts sockets through iSocket (iSocket.cpp) and hands each to the
-- least loaded of its TaskThreads (TaskThread.cpp). A TaskThread is an iEpoll (iEpoll.cpp) that
-- runs on a thread of its own (iThread.cpp) and answers each message of its clients; its counter
-- of active connections is shared with the ListenThread. Test.cpp is a client over the same
-- classes. All threads log through myepollLog (main.cpp).
--
-- The files:
--   Base          names, tests, lists, integers and sums that all modules share
--   Kernel        the system calls and the counters of iAtomic.h, as parameters
--   Proc          the state of one thread, its log and the monad of its functions
--   Text          C strings and %d, over bytes
--   Config        Define.h and loadServerConfig of main.cpp: Words has the C library's string
--                 functions, Lines the anatomy of a line, Rules the induction over the options and
--                 the lines, Ranges, Buffers and Loading what comes of a load,
--                 Printing, Fgets and Rereading a file written from the settings it is to
--                 give and cut into lines,
--                 Reference a definition of a line by words
--   Log           myepollLog and myepollLogRaw of main.cpp, with the mutex; Calls has the calls of a
--                 thread against it, Threads the steps of
--                 several threads in it, Linear their order
--   Socket        recvn and sendn of iSocket.cpp (recvn_loop and sendn_loop are their loops);
--                 Prompt has them on a connection that is up
--   Setup         setNonBlock, Bind, Listen and Connect of iSocket.cpp (set_non_block, bind_socket,
--                 listen_socket, connect_socket)
--   Epoll         iEpoll.cpp: the interest list (i_epoll_create, i_epoll_add, i_epoll_del,
--                 i_epoll_change_mode) and the event loop i_epoll_wait over a subclass's handlers
--   Task          TaskThread.cpp: iRead, iWrite, iError, iClose and Run; Conversation,
--                 Turns and Batch put them together with the event loop of iEpoll, Interest has
--                 the modes of the sockets, Life the whole of Run, Pooled sets that beside the
--                 steps of Pool
--   ListenThread  ListenThread.cpp on one thread: AssignTask, GetWorkerCapacity, InitTaskThread,
--                 Bind and Run; Interleaved and Composed set AssignTask and
--                 Run beside the steps of Pool
--   Pool          AssignTask and iClose as threads that share the counters: a step relation whose
--                 steps are single accesses of a counter, and its reachable states
--   Process       main.cpp from createPidFile on: Daemon is daemonize and initServer, Stop the handler
--                 of SIGTERM, Start the function main with its help
--   Thread        iThread.cpp: Create, Suspend and Resume as steps of two threads
--   Lifetime      the constructors and destructors of iEpoll, TaskThread and ListenThread
--   Client        Test.cpp: the handlers and Run of the client; Launch is its main (client_main)
--                 and the deletion of the clients (delete_clients)
--   Session       a worker and a client at the two ends of one connection, in turns of handle_event
--   Sim, Slot, Crowd, Tests
--                 small machines that meet the laws, and the runs on them
--
-- State. A function of a thread is a function of type M W A: from the state of the machine, the log
-- and the thread's counter to a result and a new state. The state W of the machine is a parameter,
-- and so is every system call; the theorems name what they take of them in records of laws
-- (Socket.Laws, Socket.Prompt, Epoll.Laws, Epoll.Halts, Setup.Opened, Setup.Keeps,
-- Task.Conversation, Task.Batch, Task.Interest, Lifetime.Construction, ListenThread.Serve,
-- Client.Talk, Client.Halts, Client.Start, Session.Prompt, Session.Alive), each of them documented
-- behaviour of recv, send, epoll_ctl, select, accept and the like. g_Server.shutdown is read from
-- the machine, because a signal handler sets it. The log of a thread is the list of its calls of
-- myepollLog, which are noted and do not wait; Log says what a call does, and Log.Calls when the
-- calls of a thread get past the mutex that they take: at the verbosity debug all do, above it a
-- call that is not written keeps the mutex. A SIGTERM that main sends to itself ends what is
-- modelled of main; the handler is a function of its own.
--
-- Fuel. A loop that waits or retries takes a number of rounds, and none is a loop that ran out.
-- Each theorem on such a function says how many rounds it needs and that it returns with them: the
-- bytes to move and the interruptions by signals to come for recvn and sendn, the calls of
-- epoll_wait or select before the shutdown flag is seen for the loops over events. Ten rounds are
-- enough for the decimal digits of an int. All other loops are structural.
--
-- Integers. An int is the integer it stands for; the places where a cast cuts a number (atoi,
-- GetWorkerCapacity, the port, nLen from 2^31 on) write the cut out. The counters are those of
-- iAtomic.h, which promises 24 bits. GetWorkerCapacity divides by maxthreads, which is positive
-- once the file is loaded.
--
-- Not modelled: iAtomic.h, a copy of an ALSA header; the deletion of the listener and its workers
-- by the handler of SIGTERM while their threads run; Test.cpp's handler of SIGTERM but for the
-- deletion of the clients, and its copies of the log functions; allocation, since new does not
-- return NULL; the time and the thread id of a line in the log; the address of a new client in the
-- log of Listen. The connections of Pool are numbers: which socket is which is left out there. The
-- turns of Session are those of a connection that stays up.
mod Base
mod Kernel
mod Proc
mod Text
pub mod Socket
pub mod Epoll
pub mod Task
pub mod Pool
pub mod Config
pub mod Setup
pub mod Log
pub mod ListenThread
pub mod Process
pub mod Thread
pub mod Lifetime
pub mod Client
pub mod Session
mod Sim
mod Slot
mod Crowd
mod Tests
