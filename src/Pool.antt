-- ===== src/Pool.antt =====
-- Core/Templates/SeptemRecyclePool.hpp, the pools of Servo/Protocol/NetPacketPool.hpp, and
-- `FServoProtocol` of Servo/Protocol/ServoProtocol.cpp.
--
-- A shared pointer is the number of an object in a heap, and no number for a null pointer. The
-- operations change a pool under its lock, so that they follow one another. The number of objects is
-- below 2 ^ 31, and a count that is asked for is within 2 ^ 31 of it, so that no `int32` overflows.
pub mod Recycle
pub mod Ownership
pub mod Protocol
pub mod Service
pub mod Lifecycle
pub mod Counts
pub mod Refinement
pub mod Runs
pub mod Stack
