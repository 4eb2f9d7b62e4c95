-- ===== src/StaticPacket/Create.antt =====
-- The constructor of `TSNetPacket` from a buffer (Servo/Protocol/ServoStaticProtocol.hpp), which sets
-- `BytesRead` to `BufferSize + 1` on a failure.
use septem_cpp.Common.{
  ℕ, ◌+◌, ◌-◌, List, Bool, true, false, if◌then◌else◌, ◌==◌, bit_xor, drop, Access, done, ◌>>=◌,
}
use septem_cpp.Common.Int.{pos, negsuc}
use septem_cpp.Buffer.{buffer_buffer_syncword}
use septem_cpp.Wire.Head
use septem_cpp.Wire.Foot
use septem_cpp.StaticPacket.{BodyClass, StaticPacket, init}

module _ {B : Type 0} (c : BodyClass B) (data_ptr : List ℕ) (buffer_size : ℕ) where
  -- "find syncword for head" has given `index`, and "read head" has read the head: the two tests of
  -- the uid. Whether the constructor goes on, the packet, `index` and `fastcode`.
  unfoldable pub create_body : StaticPacket B → ℕ → ℕ → Bool × StaticPacket B × ℕ × ℕ
  create_body p index fastcode =
      if p.head.uid == 0
      then (true, record p { sid = Head.session_id p.head }, index, fastcode)
      else (let (success, body) =
            c.deserialize (p.body) (drop index data_ptr) (buffer_size - index) in
          let q : StaticPacket B = record p { body = body } in
          if success
          then (true, q, index + c.body_size body, bit_xor fastcode (c.xor_body body))
          else (false, q, index, fastcode))

  -- "read foot", and what follows it.
  unfoldable pub create_foot : StaticPacket B → ℕ → ℕ → Access (StaticPacket B × ℕ)
  create_foot p index fastcode = do
    r ← Foot.mem_read p.foot data_ptr index (buffer_size - index)
    let (success, foot) = r
    let q : StaticPacket B = record p { foot = foot }
    if success
        then done (
          record q {
            fast_integrity = bit_xor fastcode (Foot.xor foot) == 0;
            sid = Head.session_id p.head;
          },
          index + Foot.mem_size,
        )
        else done (q, buffer_size + 1)

  -- What follows the head, which ends at `index`.
  unfoldable pub create_rest : StaticPacket B → ℕ → Access (StaticPacket B × ℕ)
  unfolding create_body create_foot
  create_rest p index =
      let (success, q, next, fastcode) = create_body p index (bit_xor 0 (Head.xor p.head)) in
      if success then create_foot q next fastcode else done (q, buffer_size + 1)

  -- "read head", for a syncword found at `index`.
  unfoldable pub create_head : StaticPacket B → ℕ → Access (StaticPacket B × ℕ)
  unfolding create_rest
  create_head p index = do
    r ← Head.mem_read p.head data_ptr index (buffer_size - index)
    let (success, head) = r
    let q : StaticPacket B = record p { head = head }
    if success then create_rest q (index + Head.mem_size) else done (q, buffer_size + 1)

module _ {B : Type 0} (c : BodyClass B) where
  -- The whole constructor. It does not initialise `sid` and `bFastIntegrity`, whose memory holds
  -- `old_sid` and `old_integrity`.
  unfoldable pub static_create : ℕ → Bool → List ℕ → ℕ → ℕ → Access (StaticPacket B × ℕ)
  unfolding create_head
  static_create old_sid old_integrity data_ptr buffer_size syncword =
      let p : StaticPacket B = record (init c) {
        head = record (Head.init) { syncword = syncword };
        sid = old_sid;
        fast_integrity = old_integrity;
      } in
      do
        index ← buffer_buffer_syncword data_ptr buffer_size syncword
        elim index [
          | pos i ↦ create_head c data_ptr buffer_size p i
          | negsuc n ↦ done (p, buffer_size + 1)
        ]
