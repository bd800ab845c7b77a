-- ===== src/Lib.antt =====
-- Two experiments on how a server sees its clients' packets: the C programs of the repository,
-- modelled and proved.
--
-- The programs. `server_epx3.c` serves one persistent client and one non-persistent client at a
-- time; further non-persistent clients wait in a queue of bounded length. It counts the events and
-- bytes of each, the pairs in which one's event is followed by the other's, and saves a summary of
-- every fifty sessions. `per.c` is its persistent client and `non.c` the other kind.
-- `serverexp2.c` has two clients and counts whose data came first. `exp1/server_final.c` looks for
-- gaps in the numbers of the packets that the threads of `exp1/client_final.c` send in turn, as
-- those of `client_op.c` do, and `exp1/server6.c` writes the lines it receives to a log.
-- `exp1/server7.c` and `exp1/server8 copy.c` are variants of `exp1/server_final.c`, the latter for
-- the bare numbers of `exp1/client9copy.c`. `exp1/client.c` sends sixteen packets on four
-- connections. `exp1/server.c` gathers all it reads in one buffer. `exp1/client7.c` has two
-- threads that send under a mutex, `exp1/client8.c` sends in rounds, `clientexp2_time.c`
-- alternates between two connections for a minute, and `clientexp2.c` has one thread that keeps
-- its connection and one that opens many.
--
-- The files. StatsServer and its modules are `server_epx3.c`: Setup is the start of `main`
-- (lines 189-260); State has the globals and the locals of `main`; Queue the shifting of the
-- queue (337-347); Session the end of a non-persistent session (507-564); Accept the accept
-- branch (362-405); Receive the branch for data (410-495); Close the branch for a closed
-- connection (496-570); Loop the event loop; Shutdown and Report what follows it, and Main the
-- program from its start to its status. The other modules prove: Runs carries an invariant over
-- a run, Graded one that counts the run's events, and each module after them has one subject.
-- OrderServer is `serverexp2.c`, in the same form. EventLoop is the loop over `epoll_wait` and
-- the table of connections that four servers under `exp1` share; a server is a record of its
-- own operations (Program), and what is proved of the loop rests on laws of that record
-- (ClosesAtEnd, IsLocal, IsReader). SequenceServer is `exp1/server_final.c`: Tracker has the
-- numbers, Text the format of a packet, Server the handler and the signal, Main all of `main`.
-- Start in EventLoop is what the four servers do before the loop. NumberServer is `exp1/server8
-- copy.c`, LogServer `exp1/server6.c`, EchoServer `exp1/server.c`. TurnClient, MutexClient,
-- RoundClient and TimedClient are the threads of `exp1/client_final.c`, `exp1/client7.c`,
-- `exp1/client8.c` and `clientexp2_time.c` as step relations. In TurnClient the number of
-- connections and of packets is a parameter, so that it is `exp1/client9copy.c` and
-- `client_op.c` too: Turn has the invariant of the turns, Order what follows from it, Unique
-- that the scheduler has no say, Message the bytes that `client_op.c` sends, Delivery joins the
-- client to `exp1/server_final.c`, Arrivals to `exp1/server8 copy.c`, Printed both up to what
-- the server's `main` prints. Threads is the life of a client's threads from `pthread_create`
-- to `pthread_join`, for any loop, and rests on the law that a loop stays over (EndsStay);
-- Worker in TurnClient and in RoundClient is their loop, Life what `main` comes to, and
-- Progress in TurnClient that it comes to it. PairClient is `clientexp2.c`, FirstClient is
-- `exp1/client.c`, up to what `exp1/server6.c` logs of it. Sender is the loop of `per.c`, with
-- the bytes that it sends (Wire) and what `server_epx3.c` counts of them (AtServer; Swapped is
-- where the two kinds of client come in the other order), and BatchSender the loops of `non.c`,
-- each with the statistics of its end in Report. Common has numbers, lists, tests, C strings
-- and the loop over lines that the servers share.
--
-- How code is modelled. A function of the C code, or a block of `main`, is a function from state
-- to state; what a system call returns and what the clock reads is its input, so a run is a list
-- of inputs. `unsigned long` and `uint64_t` wrap around modulo 2^64; `int` is unbounded, as its
-- overflow is undefined; in the bytes of a message it has its lowest byte first. Memory for a
-- connection is taken to be available. An array is a list; a write past its end changes nothing in
-- the model. `double` is a parameter, the record `FloatOps`, of which no law is assumed. Calls of
-- `close` and `accept` are recorded in the state. The list of lines is read with fuel, one more
-- than the number of bytes, and `print_digits` has fuel one more than the number: both are enough,
-- as each step takes a byte or a digit away. An event of `exp1/server6.c` carries the bytes that
-- have arrived: `recv` takes as many as the buffer has room for, what it leaves comes with a later
-- event, and the log has a line up to its first NUL, as `%s` prints it.
--
-- The threads of a client run between lock and unlock without another one, so what they do there
-- is one step; the clock of `clientexp2_time.c` does not go back. A signal arrives between two
-- passes of a loop.
--
-- Not modelled: socket options and processor affinity, what is printed on the terminal, how
-- `printf` rounds, and the scripts that start the programs and plot their output.
pub mod Common
pub mod StatsServer
pub mod OrderServer
pub mod EventLoop
pub mod FirstClient
pub mod SequenceServer
pub mod NumberServer
pub mod LogServer
pub mod EchoServer
pub mod Threads
pub mod TurnClient
pub mod MutexClient
pub mod RoundClient
pub mod TimedClient
pub mod PairClient
pub mod Sender
pub mod BatchSender
