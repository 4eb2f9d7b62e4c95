-- ===== src/Tests.antt =====
-- Runs of the models on small inputs, and each theorem at an input that meets its hypotheses.
mod Buffer
mod Packet
mod Graph
mod Codec
mod Join
mod Calls
mod Refinement
mod Pool
mod Singleton
mod Thread
mod StaticPacket
mod Wire
mod StaticProtocol
mod Lifecycle
