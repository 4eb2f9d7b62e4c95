-- ===== src/Wire.antt =====
-- The parts of a net packet in memory, from Servo/Protocol/ServoProtocol.h and ServoProtocol.cpp:
-- `FSNetBufferHead`, `FSNetBufferBody` and `FSNetBufferFoot`.
--
-- The structs are packed, so their memory images are their fields in order; the machine is little
-- endian. A field holds its bit pattern as a natural number: `int32 size` is below 2 ^ 32.
pub mod Xor
pub mod Head
pub mod Body
pub mod Foot
pub mod Image
pub mod Slice
pub mod Ranges
pub mod Word
