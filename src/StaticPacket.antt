-- ===== src/StaticPacket.antt =====
-- `TSNetPacket<T>` of Servo/Protocol/ServoStaticProtocol.hpp: a packet whose body is of a class `T`
-- of the user's, which serialises itself.
--
-- The class is a parameter: its virtual functions (StaticNetBodyBase.h) are a record. They do not
-- fault, sizes are not negative, and what `Serialize` writes starts at the place it is given.
pub mod Create
pub mod Failure
pub mod Body
pub mod Write
pub mod Receive
pub mod Transfer
use septem_cpp.Common.{
  ℕ, ◌+◌, ◌-◌, ◌≡◌, List, [], ◌∷◌, Bool, true, false, not, ◌&&◌, if◌then◌else◌, ltb, ◌==◌, bit_xor,
  drop, length, Access, check, done, ◌>>=◌, ◌>>◌, write,
}
use septem_cpp.Common.Int.{ℤ, pos, negsuc}
use septem_cpp.Buffer.{buffer_buffer_syncword}
use septem_cpp.Wire.Head
use septem_cpp.Wire.Foot
use septem_cpp.Wire.Head.{Head as HeadStruct}
use septem_cpp.Wire.Foot.{Foot as FootStruct, Timespec}
use septem_cpp.Packet.{resize}

-- The body class: its default value and its functions. `serialize` gives the bytes that it writes,
-- `OutSize` of them; `deserialize` is given the buffer from the body on.
pub record BodyClass (B : Type 0) : Type 0 where
  pub initial : B
  pub reset_body : B → B
  pub serialize : B → ℕ → Bool × List ℕ
  pub deserialize : B → List ℕ → ℕ → Bool × B
  pub body_size : B → ℕ
  pub xor_body : B → ℕ

pub record StaticPacket (B : Type 0) : Type 0 where
  pub head : HeadStruct
  pub body : B
  pub foot : FootStruct
  pub sid : ℕ
  pub fast_integrity : Bool

module _ {B : Type 0} (c : BodyClass B) where
  -- The default constructor.
  abbrev pub init : StaticPacket B
  init = record {
    head = Head.init;
    body = c.initial;
    foot = Foot.init;
    sid = 0;
    fast_integrity = false;
  }

  -- `IsValid`.
  unfoldable pub static_is_valid : StaticPacket B → Bool
  static_is_valid p = p.fast_integrity && (p.head.size == c.body_size (p.body))

  -- `CheckIntegrity`: the packet with its new flag.
  unfoldable pub static_check_integrity : StaticPacket B → StaticPacket B
  static_check_integrity p =
      let x =
        if p.head.uid == 0
        then bit_xor (Head.xor (p.head)) (Foot.xor (p.foot))
        else bit_xor (bit_xor (Head.xor (p.head)) (c.xor_body (p.body))) (Foot.xor (p.foot)) in
      record p { fast_integrity = x == p.head.fastcode }

  module _ (data_ptr : List ℕ) (buffer_size failed : ℕ) where
    -- "read foot", and what follows it; `failed` is what `BytesRead` gets on a failure.
    unfoldable pub static_read_foot : StaticPacket B → ℕ → ℕ → Access (StaticPacket B × ℕ)
    static_read_foot p index fastcode = do
      r ← Foot.mem_read (p.foot) data_ptr index (buffer_size - index)
      let (success, foot) = r
      if success
          then done (
            record p {
              foot = foot;
              fast_integrity = bit_xor fastcode (Foot.xor foot) == 0;
              sid = Head.session_id (p.head);
            },
            index + Foot.mem_size,
          )
          else done (record p { foot = foot }, failed)

    -- "check and read body".
    unfoldable pub static_read_body : StaticPacket B → ℕ → ℕ → Access (StaticPacket B × ℕ)
    unfolding static_read_foot
    static_read_body p index fastcode =
        let (success, body) = c.deserialize (p.body) (drop index data_ptr) (buffer_size - index) in
        if success
        then static_read_foot (record p { body = body }) (index + c.body_size body)
            (bit_xor fastcode (c.xor_body body))
        else done (record p { body = body }, failed)

    -- What follows the head, which ends at `index`.
    unfoldable pub static_read_rest : StaticPacket B → ℕ → Access (StaticPacket B × ℕ)
    unfolding static_read_body
    static_read_rest p index =
        let fastcode = bit_xor 0 (Head.xor (p.head)) in
        if p.head.uid == 0
        then static_read_foot (record p { sid = Head.session_id (p.head) }) index fastcode
        else static_read_body p index fastcode

    -- "read head", for a syncword found at `index`.
    unfoldable pub static_read_head : StaticPacket B → ℕ → Access (StaticPacket B × ℕ)
    unfolding static_read_rest
    static_read_head p index = do
      r ← Head.mem_read (p.head) data_ptr index (buffer_size - index)
      let (success, head) = r
      if success
          then static_read_rest (record p { head = head }) (index + Head.mem_size)
          else done (record p { head = head }, failed)

    -- All steps, from "find syncword for head" on.
    unfoldable pub static_read_packet : StaticPacket B → Access (StaticPacket B × ℕ)
    unfolding static_read_head
    static_read_packet p = do
      index ← buffer_buffer_syncword data_ptr buffer_size (p.head.syncword)
      elim index [ pos i ↦ static_read_head p i | negsuc n ↦ done (p, failed) ]

  -- `ReUse` with a syncword, which sets `BytesRead` to `BufferSize` on a failure.
  unfoldable pub static_reuse : StaticPacket B → List ℕ → ℕ → ℕ → Access (StaticPacket B × ℕ)
  unfolding static_read_packet
  static_reuse p data_ptr buffer_size syncword =
      static_read_packet data_ptr buffer_size buffer_size (record p {
        sid = 0;
        fast_integrity = false;
        head = record (p.head) { syncword = syncword };
      })

  -- `ReUse` with a head that was read before; it compares the size of the body that the packet has.
  unfoldable pub static_reuse_head :
      StaticPacket B → HeadStruct → List ℕ → ℕ → Access (StaticPacket B × ℕ)
  unfolding static_read_rest
  static_reuse_head p in_head buffer buffer_size =
      let q : StaticPacket B = record p { sid = 0; fast_integrity = false; head = in_head } in
      if not (in_head.uid == 0) && not (c.body_size (p.body) == in_head.size)
      then done (q, buffer_size)
      else static_read_rest buffer buffer_size buffer_size q 0

  -- `WriteToArray`.
  unfoldable pub static_write_to_array : StaticPacket B → List ℕ → Access (List ℕ)
  static_write_to_array p in_buffer_arr =
      let write_size =
        if ltb 0 (p.head.uid)
        then Head.mem_size + Foot.mem_size + c.body_size (p.body)
        else Head.mem_size + Foot.mem_size in
      do
        a ← write (resize in_buffer_arr write_size) 0 (Head.to_bytes (p.head))
        if p.head.uid == 0
            then write a Head.mem_size (Foot.to_bytes (p.foot))
            else (let (success, block) = c.serialize (p.body) (write_size - Head.mem_size) in
                write a Head.mem_size block >>= λ b.
                check success >> write b (Head.mem_size + length block) (Foot.to_bytes (p.foot)))

  -- `OnDealloc` and `OnAlloc`.
  unfoldable pub static_on_dealloc : StaticPacket B → StaticPacket B
  static_on_dealloc p = record p {
    sid = 0;
    fast_integrity = false;
    body = c.reset_body (p.body);
    head = record (p.head) { size = 0 };
  }

-- These need no body class.
module _ {B : Type 0} where
  unfoldable pub static_on_alloc : StaticPacket B → Timespec → StaticPacket B
  static_on_alloc p now = record p {
    head = Head.reset (p.head);
    foot = Foot.set_now (Foot.reset (p.foot)) now;
  }

  unfoldable pub static_less : StaticPacket B → StaticPacket B → Bool
  static_less p other = ltb (p.foot.timestamp) (other.foot.timestamp)

  unfoldable pub static_get_timestamp : StaticPacket B → ℕ
  static_get_timestamp p = p.foot.timestamp
