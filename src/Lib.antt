-- ===== src/Lib.antt =====
-- SeptemCPP, a C++ template library for servers, and Servo, its network protocol. The models are
-- functions that can be run; paths are those of the repository.
--
-- Buffer: Core/Algorithm/SeptemBuffer.h and SeptemBuffer.cpp. `buffer_buffer` is BufferBuffer, the
--   Knuth-Morris-Pratt search, `buffer_fail_array` is BufferFailArray, its table of borders, and
--   `buffer_buffer_syncword` is BufferBufferSyncword.
-- Wire: the packed structs FSNetBufferHead, FSNetBufferBody and FSNetBufferFoot of
--   Servo/Protocol/ServoProtocol.h and ServoProtocol.cpp, as records, and their memory images on a
--   little-endian machine. Wire/Xor holds the theory of the exclusive or of a block.
-- Packet: FSNetPacket of the same files. `reuse` and `reuse_head` are the two ReUse, `create` the
--   constructor from a buffer, `write_to_array` is WriteToArray, `on_seal` and `check_integrity` are
--   OnSeal and CheckIntegrity, `reuse_as_heartbeat` is ReUseAsHeartbeat.
-- Graph: Core/Templates/GraphType.hpp, DirectedGraph.hpp and BackwardGraph.hpp. Graph/Directed is
--   TDirectedGraph, Graph/Codec its Seriallize and Deseriallize over the memory images of the values
--   (Graph/Memory), Graph/Abstract what a client sees of it; Graph/Backward is TBackwardGraph, with
--   the prefix `backward_` where the class overrides an operation.
-- Pool: Pool/Recycle is TSharedRecyclePool of Core/Templates/SeptemRecyclePool.hpp, Pool/Protocol is
--   TNetPacketQueue of Servo/Protocol/NetPacketPool.hpp and FServoProtocol of ServoProtocol.cpp,
--   which keeps received packets in the queue and allocates packets from the recycle pool.
--   Pool/Lifecycle has its pSingleton and the runs of a client, Pool/Counts what such a client sees.
--   Pool/Stack is TNetPacketStack and the base class TNetPacketPool.
-- Singleton: TSingleton of Core/Templates/SeptemSingleton.hpp, its Get for threads under a schedule;
--   FServoProtocol, FProtocolFactory and TServoProtocol repeat it.
-- Thread: TTaskThread of Core/Thread/SeptemThread.hpp, a worker and its queue of tasks, as runs of
--   events; PushTask is its test, and later the push. Thread/Scope is ScopeLock of Core/Thread/ScopLock.h, over mutexes that are a parameter.
-- Factory: FProtocolFactory of Servo/Protocol/ProtocolFactory.h and ProtocolFactory.cpp, the
--   deserialisers by uid, and its pSingleton (Factory/Lifecycle).
-- StaticPacket: TSNetPacket of Servo/Protocol/ServoStaticProtocol.hpp over a class of bodies, which is
--   a parameter. StaticPacket/Create is its constructor from a buffer, StaticPacket/Body has the
--   classes of the repository: FStaticNetBodyBase and TSNetBufferWrapper.
-- StaticProtocol: TServoProtocol of the same file, which receives such packets through the factory
--   (`on_received_packet` is OnReceivedPacket), keeps them in a queue or a stack and hands them out.
--   StaticProtocol/Shelf has the runs of a client and what such a client sees of the pool.
-- Containers: TArray, TMap and TSet of Core/Containers, as they are with `UE_STYLE_CONTAINER` set.
-- Common: lists, bits, bytes, `int32`, and `Access`, the outcome of C++ code: a value, a failed
--   `check`, or a fault, which is an access that C++ leaves undefined.
--
-- A received buffer is searched for the syncword (Buffer), the packed structs are read from there
-- (Wire) and make a packet (Packet), which goes through the queue of the protocol (Pool).
--
-- Bounds and fuel. Sizes and lengths are below 2 ^ 31, so that `int32` indices do not overflow; where
-- the code casts or shifts, the wrap-around is written out. BufferFailArray runs on the fuel
-- 2 * length + 1 and BufferBuffer on 2 * size + 2: in every turn of the loop either the position grows
-- or the pattern moves by at least one, and neither can happen more often than the text is long.
--
-- Outside of the model: the clock, whose reading is an argument; malloc, whose block is an argument;
-- the functions of pthread on a mutex, and those of Unreal Engine that TServoProtocol names without
-- the repository having them (IsValid of a shared pointer, MoveTemp, DeallocForceRecycle), which are
-- parameters; TNetPacketHeap, which `#if 0` disables; the macros of ProtocolFactory.h, which do not
-- expand to C++; the copies of other projects in cppsockets and zmq. The text of TNetPacketStack and
-- TServoProtocol does not compile as it stands: Pop assigns to a reference to a constant, which the
-- model reads as a reference to a variable.
mod Common
pub mod Buffer
pub mod Wire
pub mod Packet
pub mod Graph
pub mod Pool
pub mod Singleton
pub mod Thread
pub mod Factory
pub mod StaticPacket
pub mod StaticProtocol
pub mod Containers
mod Tests
