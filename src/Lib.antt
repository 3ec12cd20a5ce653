-- ===== src/Lib.antt =====
-- A verification library for the YFS labs: a distributed file system over its own RPC library.
--
-- The program. Clients call servers through `rpc/`: `rpcc` numbers the requests and tells the
-- server, in each header, up to which number it has all replies; `rpcs` keeps a window of replies
-- for each client, so that a repeated request is answered and not executed again; `marshall` and
-- `unmarshall` turn values into messages. On this stand a lock server (`lock_server.cc`), a lock
-- server whose clients keep their locks until they are asked for (`lock_server_cache.cc`), the
-- storage of files and directories (`extent_server.cc`) with a cache at its clients
-- (`extent_client.cc`), and Paxos (`paxos.cc`, `log.cc`), which agrees on the views of the replicated
-- lock server. `config.cc` turns each decision into a view, and `rsm.cc` has every member of the view
-- execute the requests in the order that the primary gives them, and brings members that join up to
-- date with the state that the service writes as a message.
--
-- Which file models what.
--   Base, Base/*         shared names; tests on numbers; `std::string` as a list of bytes;
--                        `std::map` as an association list in key order.
--   Rpc/Replies          the reply window of `rpcs` (rpc/rpc.h, rpc/rpc.cc).
--   Rpc/Calls            the request numbers of `rpcc` (rpc/rpc.cc).
--   Rpc/Dispatch         what `rpcs` does with a message (rpc/rpc.cc), over the reply window.
--   Rpc/Fifo             the queue of jobs and its pool (rpc/fifo.h, rpc/thr_pool.cc).
--   Rpc/Timespec         the times of the RPC library (rpc/rpc.cc).
--   Rpc/Marshal          buffers, cursors and operators (rpc/marshall.h, rpc/rpc.cc); Containers
--                        has vectors and maps, Header the two headers, Laws the interface `Wire`
--                        of a type that is written and read, which Protocol/* fills.
--   Protocol/*           the messages (paxos_protocol.h, rsm_protocol.h, extent_protocol.h).
--   Lock/Server          the lock server (lock_server.cc).
--   Lock/Cache           the caching lock server (lock_server_cache.cc); State has the message of its
--                        state, and fills the interface `StateTransfer` of Rsm.
--   Lock/Client          the locks that a client keeps (lock_client_cache.cc).
--   Paxos/Acceptor       the acceptor and its log (paxos.cc, log.cc); Log has the text of the log,
--                        which Config and Rsm hand on as its records.
--   Paxos/Proposer       the proposer (paxos.cc).
--   Extent/Server        the extent server (extent_server.cc).
--   Extent/Client        the cache of extents at a client (extent_client.cc), over the server.
--   Config               the views (config.cc), over the acceptor and the proposer.
--   Rsm                  a replica (rsm.cc, rsm_state_transfer.h), over Config; Calls has the requests,
--                        Client the client (rsm_client.cc), Transfer the joining and the recovery,
--                        Replicas the nodes together.
--   Handle               the connections that a node shares (handle.h, handle.cc).
-- The modules below these prove what their names say; modules called Tests run the definitions.
--
-- How it is modelled. The members of a class are a record, and a handler is a function of that
-- record; its result is returned beside the new record. One step is what a thread does under its
-- mutex; a wait on a condition variable ends a step, and each turn after a wake-up is another.
-- Some functions give up their mutex in between. `rpcs::dispatch` is two steps, before and after
-- the procedure, and any others come between; inside each, the short locks of its tables follow
-- each other and are taken as one step. The proposer, `rsm::client_invoke` and the client of a
-- replica make calls without their mutex, and `rsm::invoke` and `lock_server_cache::acquire` look
-- at some of the state before they take it: these are modelled one call at a time, with no other
-- thread in between. A sequence of steps is a list of events, in any order. `assert` and the
-- exceptions of the library are `none`. Machine integers are natural numbers that wrap around
-- where the source's type does. The buffers of messages have `int` sizes: one that is written says
-- whether a size has left the type, and of one of 2 GB or more nothing can be read. The strings of
-- the extent server have at most `max_size` bytes, and `size_t` has 32 bits. A read by
-- `operator[]` of a map leaves an entry behind, as in the source.
--
-- Bounds and fuel. The loop that fills the reply window in front counts down from its first number,
-- and the one that fills it behind makes as many rounds as the numbers differ, so that neither stops
-- early. The loop of add_timespec has fuel for one round more than there are whole seconds in the sum
-- of the nanoseconds. The loops of the client of a replica have fuel for their turns, and running out
-- of it is a result of its own: a search among silent members needs one round more than there are
-- such members. A number in the log has at most ten digits, and the loop that reads the log has fuel
-- for one turn more than the file has characters. All other loops follow a list.
--
-- Parameters. The calls of the proposer to other nodes are functions from the arguments to the
-- answer, and so are those of the heartbeat, of a replica and of its client, during which no other
-- thread of the client runs. The procedures of a server and of the replicated service are functions of
-- the arguments and of the service's state; whether a connection is dead is a test on its number. The
-- clock and the random numbers of the extent server are arguments, and so is whether a replica is the
-- primary in the rounds of the revoker and the retryer, and whether a connection that is shared can
-- be bound.
--
-- Not modelled: sockets, threads, timers and retransmission (rpc/connection.cc, rpc/pollmgr.cc),
-- the reference counts of connections, the breakpoints and the simulated partition that tests use,
-- the blocking lock client (lock_client.cc), the file system client (yfs_client.cc), the FUSE
-- binding (fuse.cc), and the programs and tests.
pub mod Base
pub mod Rpc
pub mod Protocol
pub mod Lock
pub mod Paxos
pub mod Extent
pub mod Config
pub mod Rsm
pub mod Handle
