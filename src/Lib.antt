-- ===== src/Lib.antt =====
-- FlashReduce, the host side of an in-network reduction library: a proxy thread that drives queued
-- operations, the messages and calls by which workers meet at a controller, the set-up of their
-- RDMA queue pairs, the sockets over which two ends exchange them, and a benchmark. The program's
-- parts and their files here:
--
-- * Proxy (csrc/proxy.h, csrc/proxy.cc). Clients take entries (`ProxyArgs`) from a pool
--   (`allocateArgs`), fill them and append them (`ProxyArgsAppend`); one thread
--   (`persistentThread`) goes round a ring of operations, calls each one's progress function and
--   takes finished ones out. Entries of one channel queue behind its operation through
--   `nextPeer`, and take its place in the ring in turn. Proxy/State.antt has the memory and the
--   commands on it, with an access through a null or dangling pointer as a fault;
--   Proxy/Queue.antt has `allocate_args` and `proxy_args_append`, Proxy/Thread.antt the thread's
--   loop as `poll`, `work` and `advance`, cut where the mutex is taken or given up,
--   Proxy/Control.antt `proxy_create`, `proxy_start` and the two locked sections of
--   `ProxyDestroy`. Proxy/Channels.antt has the abstract ring, a list of channels, and
--   Proxy/Invariant.antt says when a memory holds one. Proxy/Append, Proxy/Allocate,
--   Proxy/Advance and Proxy/Lifecycle are on one operation each, and Proxy/System and
--   Proxy/Soundness on any order of the thread's and the clients' steps, with
--   Proxy/Soundness/Drain.antt on the end of the work, when the progress functions finish after
--   some calls (Proxy/Soundness/Pace.antt);
--   Proxy/Soundness/Round.antt is on one round of the thread. Proxy/Soundness/Loop.antt has a
--   wait in which the thread takes its turns, and Proxy/Soundness/Teardown.antt the whole of
--   `ProxyDestroy` with such a wait. Proxy/Soundness/Waiting.antt has `ProxyWaitAllOpFinished`,
--   which reads `ops` without the mutex: it looks before each turn of the thread, and in the middle
--   of its second locked section too, where `ops` is written but the entry that is done with is not
--   yet back in the pool. Proxy/Flags.antt says what the thread leaves of the handler.
-- * Messages (csrc/flashreduce.pb.h, csrc/flashreduce.pb.cc). One module for each message: its
--   fields, and what the generated code does with them. Messages/Wire.antt is the interface of the
--   protobuf runtime.
-- * Grpc (csrc/grpc_client.h, csrc/grpc_client.cc). Grpc/Client.antt has the constructor of
--   `gRPCClient`, Grpc/Calls.antt its three calls, with the stubs as parameters;
--   Grpc/Exchange.antt puts the controller's answer (controller/controller.py) between two
--   workers, and Grpc/Session.antt and Grpc/Broadcast.antt have the controller's
--   `RdmaSession` and `Broadcast` for it.
-- * Rdma (csrc/rdma_utils.h, csrc/rdma_utils.cc). Rdma/QueuePair.antt has the transitions of a
--   queue pair over `ibv_modify_qp`, Rdma/Connect.antt what the verbs manual asks for,
--   Rdma/Device.antt `init_ibv_device` and the name tables, and Rdma/PortText.antt
--   `print_port_attributes`.
-- * Sockets (csrc/socket_endpoint.h, csrc/socket_endpoint.cc). Sockets/Kernel.antt has the calls
--   of the C library, Sockets/Endpoint.antt the constructors, `serve` and `connect_to`, and the
--   destructor; Sockets/Construction.antt and Sockets/Connecting.antt say what they own, on the
--   lemmas of Sockets/Ownership.antt and Sockets/Names.antt. Sockets/Sync.antt has `syncData` and
--   `syncReady`, Sockets/Exchange.antt two ends that run them, Sockets/Handshake.antt and
--   Sockets/RoundTrip.antt what comes of it.
-- * Benchmark (examples/proxy_send_recv.cc). Benchmark/Device.antt has the calls of the verbs
--   library, Benchmark/Progress.antt the progress functions `send_benchmark` and `recv_benchmark`,
--   Benchmark/Setup.antt what `main` puts into the entry, the queue pair and its receive queue;
--   Benchmark/Sending.antt, Benchmark/Receiving.antt and Benchmark/Prepared.antt are on them, and
--   Benchmark/Meeting.antt and Benchmark/Draining.antt on their work with the sockets, the queue
--   pairs and the proxy.
--   Benchmark/Objects.antt has the verbs objects and the buffer that `main` creates and releases,
--   Benchmark/Live.antt what the manuals say of them, and Benchmark/Stacked.antt and
--   Benchmark/Released.antt what becomes of them. Benchmark/Aimed.antt has both ends from the
--   exchange to the filled entry, and Benchmark/Ending.antt what `main` does with the proxy from
--   `ProxyStart` to `ProxyDestroy`.
-- * Controller (controller/controller.py). Controller/Barrier.antt has the barrier that the calls
--   `Barrier` and `RdmaSession` share, cut where the lock is taken or given up, and the runs of any
--   number of workers; Controller/Counting.antt says what its counters mean, Controller/Arriving,
--   Controller/Leaving and Controller/Meeting are on one step, and Controller/Order.antt on runs.
--   Controller/Session.antt has `RdmaSession` with its table of sessions, on top of the barrier;
--   Controller/Calls.antt sees its calls as calls at the barrier, Controller/Inside.antt says who
--   is inside of it, Controller/Table.antt what a step does to the table, Controller/Kept.antt
--   what the table holds, and Controller/Exchange.antt who gets whose request.
--   Controller/Broadcast.antt has `Broadcast` and the broadcasts that follow one another,
--   Controller/Round.antt what holds in one of them and Controller/Serving.antt how a step keeps
--   it, Controller/Rounds.antt, Controller/Returning.antt and Controller/Scheduled.antt what comes
--   of it.
--
-- Numbers are natural numbers; where the code narrows one, the modulus is written out. Pointers
-- are numbers, 0 is null, and pointer arithmetic counts entries. The progress function of an
-- entry, the block that `malloc` returns, the stubs' answers, the verbs library, the C library's
-- socket calls and the protobuf runtime are parameters. A progress function may change its entry
-- at will but for the links, and differ from one turn to the next; a call through a null function
-- pointer, or with null handles of the verbs library, is not told apart from any other. `work` is
-- one step, since it and an append by another thread write different fields. The retries of `connect_to` are five,
-- its loop runs on those left; `turns` counts the proxy thread's rounds with one entry. An
-- exchange over a socket takes a message to arrive in one piece. The workers at the barrier all
-- ask for the same number. A broadcast begins when all calls of the one before are back, since the
-- code loses its place in the list otherwise. The last lines of `allocateArgs` run without the
-- mutex, on an entry that nothing else points to, and belong to its step. The waits for the thread
-- run on a number of its turns, and the theorems on them say how many are enough. No other
-- function needs fuel but the varint of the example runtime, whose ten bytes are enough for 64
-- bits.
--
-- Not modelled: the cycle counter, which is a copy of another project's, the generated stubs, the
-- parse tables of the messages, BarrierResponse, whose operations are the protobuf library's,
-- controller/controller_.py, which is another project's controller, the logs of the example, and
-- the other example programs but for `exampleTask`.
pub mod Common
pub mod Proxy
pub mod Messages
pub mod Rdma
pub mod Sockets
pub mod Grpc
pub mod Benchmark
pub mod Controller
