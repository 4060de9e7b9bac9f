-- ===== src/Lib.antt =====
-- DreamboatRPC: an RPC framework on epoll. A client gives each call an id (Guid), lays the request
-- out in a packet of fixed size (RpcTypes, Serializer, RpcUtils), queues it and sends it when its
-- descriptor is writable (ClientTransport). The server's reactor hands the events of its
-- descriptors to a pool of workers; RpcRequestHandler reads a request, calls the service that is
-- registered under the request's name, and queues the result for the descriptor (ReturnValuePipe);
-- RpcResultSender sends it. The client's CallbacksHandler runs the callback of the id in the
-- result, and gives the id back.
--
-- Files, each with the code that it models:
--   Prelude, Run, Memory   numbers, lists, how a call ends, and raw memory
--   Guid      source/common/Guid.cc: GetGuid is get_guid, RecycleGuid is recycle_guid
--   Packet    include/common/RpcTypes.hh and the message half of source/serialization/Serializer.cc
--   Params    the value half of Serializer.cc, include/common/RpcUtils.hh, source/common/RpcUtils.cc
--   Events    source/runtime/handlemodel: the table of event handlers
--   Poller    source/runtime/iomodel/Poller.cc: registrations, and the tasks of a dispatch
--   Pool      include/runtime/threadmodel/SafeQueue.hh, source/runtime/threadmodel/ThreadPool.cc,
--             source/runtime/iomodel/Reactor.cc; Pool/Workers is the threads of the pool, as a step
--             relation
--   Server    source/server/RpcEventHandler.cc, RpcServer.cc, source/transport/ServerTransport.cc:
--             RpcRequestHandler::HandleReadEvent is handle_request_event,
--             RpcResultSender::HandleWriteEvent is Server.handle_write_event,
--             ServerTransport::HandleReadEvent is handle_connect_event (Server/Transport); Server/Loop
--             is the event loop over all descriptors, as a step relation
--   Client    source/transport/ClientTransport.cc, source/client/CallbacksHandler.cc, RpcClient.cc,
--             the client half of include/common/RpcServiceBase.hh: CallRPCAsync is call_rpc_async,
--             CallbacksHandler::HandleReadEvent is handle_read_event
--   Kv        source/apps/kv: the key-value service
--   Args      source/common/ArgsParser.cc
--   Timer     source/common/Timer.cc, include/common/Timer.hh
--   Format    the formatted printing of the C library, as the program uses it
--   Logger    source/common/Logger.cc
--   NameService  source/server/ServiceReporter.cc, source/client/ServiceDiscoverer.cc, ClientFactory.cc
--   Apps      source/apps/Server.cc, source/apps/Client.cc; serve_main is the server's main up to its
--             reactor, with the heartbeats (Apps/Serve)
--   Remote    a remote call through all of these, CallRPC (Remote/Blocking), and the proxies of
--             source/apps/kv/KVClient.cc (Remote/Proxies)
--   Connection   the client and the server on one connection: any number of calls, with the events
--             of both sides in any order, as a step relation
--
-- State is passed explicitly: a handler is a function from the state to a Run of the state, where a
-- Run returns, ends the process (exit, a failed assert), or leaves what C++ defines (an access out
-- of range, a null pointer). A byte is a number below 256, an int its 32-bit pattern, so that -1 is
-- 2^32 - 1; memory is little-endian, with the padding of x86-64. What a system call gives is an
-- argument of the handler that makes it. What the code asks of the kernel and sends is a log in the
-- state.
--
-- The two percolations of Guid.cc recur on fuel, the length of the vector plus one going down and
-- the length going up: each round but the last moves to a child or to the parent, and the theorems
-- on them have results that return, so the fuel is always enough. All other loops are structural.
-- An access past the end of the vector leaves what C++ defines, also where the memory is still there.
--
-- Protobuf is the record Codec, with the law that parsing a wire form gives the message back. The
-- services of a server are a parameter; so is what uninitialised memory holds.
--
-- A mutex makes the operation under it one step. Handlers are steps too: what two threads do within
-- the handlers of two descriptors is not interleaved.
--
-- The kernel delivers an event of a descriptor while it is registered for it; the event uses up a
-- registration with EPOLLONESHOT and leaves any other. A descriptor that accept gives is not open.
--
-- A connection is the bytes sent and not yet received, in each direction. Its calls are of names and
-- parameters that fit their buffers and have no zero byte. A recv is given all the
-- bytes that it asks for, if they have been sent, and a send takes its packet whole or not at all.
-- Nothing in the code handles less: a part of a packet is dropped, and the rest read as another.
--
-- libcurl and jsoncpp are parameters: what a handle of curl answers, the text of a JSON object, and a
-- reader of JSON values. What rand, time and the readings of /proc give are arguments.
-- The loop of the client program runs on fuel: how many rounds are
-- enough depends on what rand gives, and no number is enough if it gives multiples of 100 alone
-- (Apps.Load.crazy_ids-stays).
--
-- Not modelled: socket set-up, the joining of threads, callbacks that make calls of their own,
-- several clients on one allocator, the logger's calls within the handlers, the floating-point
-- readings of Sysutils.cc, and the main function of the client program.
pub mod Prelude
pub mod Run
pub mod Guid
pub mod Memory
pub mod Packet
pub mod Params
pub mod Events
pub mod Poller
pub mod Server
pub mod Client
pub mod Connection
pub mod Kv
pub mod Remote
pub mod Pool
pub mod Format
pub mod Logger
pub mod NameService
pub mod Args
pub mod Apps
pub mod Timer
