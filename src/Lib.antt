-- ===== src/Lib.antt =====
-- The RPC library of rpc/ and the lock server on top of it.
--
-- A client (rpcc) packs a request behind a header, sends it on a connection and waits; a server (rpcs)
-- gets it from a connection, runs the handler of its procedure in a thread of a pool, and sends the
-- reply. Requests may be sent again and may arrive more than once, so the server keeps the replies of
-- each client until the client has confirmed them with the `xid_rep` of a later request. The lock
-- server's methods are such handlers.
--
-- Prelude: bytes in memory, words in network order, integers, Boolean tests.
-- Marshall: class marshall and the `operator<<` (rpc/marshall.h, rpc/rpc.cc).
-- Unmarshall: class unmarshall and the `operator>>` (rpc/marshall.h, rpc/rpc.cc).
-- Codec: the types that calls carry; the interface of `rpcc::call` and of the handlers to them.
-- ReplyWindow: rpcs::checkduplicate_and_update, add_reply, free_reply_window (rpc/rpc.cc).
-- Rpcs: class rpcs, dispatch and the reg templates (rpc/rpc.h, rpc/rpc.cc). Rpcs.Handlers has the
--   handler classes, Rpcs.Histories the jobs of the pool and the destructor, and the other children
--   follow a request through dispatch.
-- Connection: class connection, the framing of messages on a socket (rpc/connection.h,
--   rpc/connection.cc). Frames, Receive, Stream and Delivery follow what is read, Pieces, Writing,
--   Transmit and Finishing what is written; Link puts two connections together; Closing has the
--   ends, and Accepting the connections that a server holds.
-- PollMgr: class PollMgr over any aio_mgr (rpc/pollmgr.h, rpc/pollmgr.cc). SelectAio and EpollAio are
--   the two that the code has; Loop has the steps of wait_loop and of the threads around it, and Quiet
--   and Removal follow block_remove_fd.
-- XidWindow: rpcc::update_xid_rep (rpc/rpc.cc).
-- Rpcc: class rpcc: bind, the blocks of call1, got_pdu, call and call_m (rpc/rpc.h, rpc/rpc.cc).
--   Rpcc.Retry is the loop of call1, Rpcc.EndToEnd a call whose messages arrive, Rpcc.Remote one
--   whose request goes over two connections, and Rpcc.Channels the connections of a client, with
--   their reference counts: get_refconn and ~rpcc.
-- Sockaddr: make_sockaddr and the order on struct sockaddr_in (rpc/rpc.cc).
-- Timespec: cmp_timespec, add_timespec, diff_timespec (rpc/rpc.cc).
-- LockServer: class lock_server (lock_server.h, lock_server.cc, lock_protocol.h).
-- LockClient: class lock_client (lock_client.h, lock_client.cc).
-- LockTester: check_grant, check_release and the threads of test2 to test5 (lock_tester.cc), against
--   the lock server.
-- Fifo: class fifo, the queue of the thread pool (rpc/fifo.h).
-- ThrPool: class ThrPool (rpc/thr_pool.h, rpc/thr_pool.cc). ThrPool.Workers has the steps of its
--   threads and of its destructor.
-- System: a client against the reply windows of a server, over a network that delays, reorders and
--   repeats its packets.
-- Tests: concrete runs.
--
-- State is passed explicitly. An operation that runs under one mutex is one function; where a thread
-- waits on a condition variable, each round of its loop is one function, and a history is a list of
-- such steps in the order of the mutex. Threads, sockets, the allocator and random numbers stand
-- outside: what malloc, random and the network give is an argument. An `unsigned int` is a natural
-- number with its wrap-around written out, and an `int` is an integer that is moved as its two's
-- complement pattern.
--
-- The one loop on fuel is that of add_timespec (Timespec.carry): each round takes a billion off
-- tv_nsec, so that tv_nsec / billion rounds are enough. All other loops are by recursion on a list or
-- on a number.
--
-- A connection is given what read(2) and write(2) give. A stream is cut into pieces at any place but
-- inside the four bytes of a size, since the code ends the connection on a short read of a size. The
-- poll manager is given what select(2) and epoll_ctl(2) give; that select leaves only descriptors that
-- it was asked for, and that a pipe that is ready holds a byte, are hypotheses where they are used.
--
-- The loop of call1 runs over a list of rounds, which say what the clock, the connections and
-- pthread_cond_timedwait give.
--
-- The streams of Connection.Stream say for each call of read_cb whether the manager takes a message
-- that it is offered: a server refuses one where the queue of its pool is full, and then a later call
-- offers it again. The theorems on what is handed over are about managers that take every message.
-- malloc is taken to give what is asked for, up to PTRDIFF_MAX.
--
-- In the histories of a server a dispatch is two steps, up to its switch and from it on; in those of
-- the lock tester a call of a client is the method of the server that it reaches, or times out, and
-- a request waits for a thread of the server's pool.
--
-- Not modelled: the broadcast of send_wait_, which wakes threads whose rounds are steps of their own;
-- lossy_, whose shutdown shows in what write(2) gives; the loop of tcpsconn, which is calls of the
-- socket library; what updatestat prints; rpctest, the demo, and test1 and main of the
-- lock tester.
pub mod Prelude
pub mod Marshall
pub mod Unmarshall
pub mod Codec
pub mod ReplyWindow
pub mod Rpcs
pub mod XidWindow
pub mod Sockaddr
pub mod Timespec
pub mod Rpcc
pub mod LockServer
pub mod LockClient
pub mod LockTester
pub mod Fifo
pub mod Tests
pub mod ThrPool
pub mod Connection
pub mod PollMgr
pub mod System
