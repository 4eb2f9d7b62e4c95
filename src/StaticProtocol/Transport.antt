-- ===== src/StaticProtocol/Transport.antt =====
-- A static packet from `WriteToArray` of the sender to `PopWithRecycle` of the receiver, who reads the
-- head with `MemRead` and hands what follows it to the factory.
use septem_cpp.Common.{ℕ, ◌-◌, ◌≡◌, List, ◌++◌, true, drop, length, done}
use septem_cpp.Common.Int.{ℤ, pos}
use septem_cpp.Wire.Head
use septem_cpp.Wire.Head.{Head as HeadStruct}
use septem_cpp.Wire.Foot
use septem_cpp.Pool.Stack.{Stack}
use septem_cpp.StaticPacket.{BodyClass, StaticPacket, static_write_to_array}
use septem_cpp.StaticProtocol.{StaticProtocol, Engine, IsEngine}
use septem_cpp.StaticProtocol.Delivery.{Delivered}
use septem_cpp.Factory.{Delegates, call_protocol_deserialize}

module _ {B : Type 0} (c : BodyClass B) (e : Engine B) (he : IsEngine e) (s : StaticPacket B)
    (bytes arr after : List ℕ) (p : StaticProtocol B) (held : List ℕ) where
  -- What the sender and the receiver see; `h` is what the receiver's head was before.
  pub record TransportOutcome (m : Delegates (StaticProtocol B)) (h : HeadStruct) (read : ℤ) (r : ℕ)
      : Type 0 where
    pub w : List ℕ
    pub written : static_write_to_array c s arr ≡ done w
    pub head_read : Head.mem_read h (w ++ after) 0 (length (w ++ after)) ≡ done (true, s.head)
    pub q : StaticProtocol B
    pub received :
        call_protocol_deserialize m
          (s.head)
          (drop 16 (w ++ after))
          (length (w ++ after) - 16)
          read
          p
        ≡ done (pos (length w - 16), q)
    pub delivered : Delivered c e he s bytes after (length (w ++ after) - 16) p held r q
