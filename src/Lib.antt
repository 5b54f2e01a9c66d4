-- ===== src/Lib.antt =====
-- A model of the core of rocket-rpc, a C++ RPC framework: its buffers and coders, connections,
-- timers, event loop, queues, worker pool, request dispatcher, and the client side of a call.
--
-- The program. A connection reads from its socket into one `TcpBuffer` and writes from another. A
-- coder (`TinyPBCoder`, or `StringCoder` for plain text) appends the frames of messages to the
-- output buffer, and takes whole frames from the input buffer. `TcpConnection` drives both on the
-- thread of an event loop, whose timers are in a `TimingWheel`. On a server, `RpcDispatcher` finds
-- the method of a request and runs it on the loop or in a `ThreadPool`; on a client,
-- `RpcChannel` makes a call: `RpcConnectionPool` chooses its `TcpClient`, which keeps a callback for
-- each response, and the response, a timer or an error completes it. Loops take tasks from other
-- threads through `EventLoop`.
--
-- The model.
-- - Common: the native numbers, Boolean tests, lists as memory (slice, splice, resize), words of 32
--   and 64 bits, byte order, and the search for a byte.
-- - TcpBuffer: src/rocket/net/tcp/tcp_buffer.{h,cc}. A record of the storage (a list of bytes) and
--   the two indices, one function for each member function. An access outside the storage, which
--   the code does not test, is `none`. Valid has the invariant, Room is about ensureWritable,
--   Fifo about append, consume and retrieve, Front about prepend, Ints about the integers, Search
--   about findCRLF and findEOL, Storage about resizeBuffer, shrink and adjustBuffer, Io about
--   readFromFd and writeToFd, where the answer of the kernel is an argument.
-- - Protocol: src/rocket/net/coder/{abstract_protocol,tinypb_protocol,abstract_coder}.h.
-- - TinyPb: src/rocket/net/coder/tinypb_coder.cc. TinyPb itself has encode, Parse the fields of one
--   packet, Decode the loop. CRC-32 is a parameter, of which only the bound is used.
-- - StringCoder: src/rocket/net/coder/string_coder.h.
-- - TimingWheel: src/rocket/net/timing_wheel.{h,cc}, timer_event.{h,cc}. The 256 slots are a
--   function of the index, the overflow multimap a list; the store of the events and the clock are
--   part of the state. Slots has the slots by their distance from the cursor, Due when an event
--   fires, Wait how long the loop may sleep. A callback is any change of the state.
-- - ThreadPool: src/rocket/common/thread_pool.h. One pass of a worker under the mutex, one call, and
--   the end of a task are steps, and so is each notify of the condition variable; Reachable is what
--   any order of them makes of a new pool. Queue has the invariant, Drain what stopAndDrain gives.
-- - RpcDispatcher: src/rocket/net/rpc/rpc_dispatcher.{h,cc}, over the model of the thread pool.
--   dispatch is a chain of stages, each with the result of the search before it. Names has the
--   method names and the maps, Answers what becomes of a request, Once the answers of a run. A
--   service is a parameter.
-- - TcpConnection: src/rocket/net/tcp/tcp_connection.{h,cc}, over the model of the buffer. The coder
--   and the message callback are parameters, the answers of the kernel arguments; `log` records the
--   other callbacks and what is written. Flush is about the writes, Closed about the last states.
-- - RpcConnectionPool: src/rocket/net/rpc/rpc_connection_pool.{h,cc}. acquire is two steps, reuse and
--   install, around the making of a connection, which is outside. Choice is about what they return.
-- - FdEvent: src/rocket/net/fd_event.{h,cc}. EventLoop: src/rocket/net/event_loop.{h,cc}, the queue of
--   tasks and the rounds; Steps interleaves the loop with the threads that give it tasks, Steps/Awake
--   has what holds then, Tasks what the loop thread does alone.
-- - Logger: src/rocket/common/log.{h,cc}, the two buffers of the log. Buffers has where the bytes are,
--   and the end of the log, in any order of its two threads.
-- - NetAddr: src/rocket/net/tcp/net_addr.{h,cc}, with std::from_chars written out. Ports is about texts.
-- - MsgIdUtil: src/rocket/common/msg_id_util.cc. Count has the ids as numbers.
-- - MpscQueue: src/rocket/net/mpsc_queue.h. Memory is a function from nodes to links. Threads
--   interleaves producers and the consumer beside a plain queue, Chain has the chains of nodes, Twice
--   what one thread sees.
-- - TcpClient: src/rocket/net/tcp/tcp_client.{h,cc}. Connects is about connecting, Reads about the
--   callbacks that wait for a response.
-- - TcpServer: src/rocket/net/tcp/tcp_server.{h,cc} and the choice of a thread in src/rocket/net/
--   io_thread_group.{h,cc}. Live interleaves accepting and closing, Stops is about stop,
--   Early about a connection that is closed before it is inserted.
-- - RpcController: src/rocket/net/rpc/rpc_controller.{h,cc}. RpcChannel: src/rocket/net/rpc/
--   rpc_channel.{h,cc}, with finishRpc cut where threads can come in between. Start has Init and the
--   start of a call, Runs its interleavings, Runs/Once and Runs/Blocking what holds in all of them.
--
-- Numbers. `size_t` is a number below 2 ^ 64 with its wrap-around written out (add_size, sub_size);
-- an `int32_t` is its bit pattern, compared as a signed number by slt32. Bytes are numbers.
--
-- Fuel. `decode` runs on one more than the number of readable bytes: each round but the last
-- consumes a byte. `pop` of MpscQueue makes at most six accesses.
--
-- Not modelled: sockets and pollers, the acceptor, coroutines, most of logging,
-- configuration, the etcd registry, generated code. They are input and output, or they are outside
-- the parts above; the answers of the kernel and the callbacks stand as arguments.
pub mod Common
pub mod TcpBuffer
pub mod Protocol
pub mod TinyPb
pub mod StringCoder
pub mod TimingWheel
pub mod ThreadPool
pub mod RpcDispatcher
pub mod TcpConnection
pub mod RpcConnectionPool
pub mod FdEvent
pub mod Logger
pub mod NetAddr
pub mod MsgIdUtil
pub mod EventLoop
pub mod MpscQueue
pub mod TcpClient
pub mod TcpServer
pub mod RpcController
pub mod RpcChannel
