-- ===== src/Packet.antt =====
-- `FSNetPacket` of Servo/Protocol/ServoProtocol.h and ServoProtocol.cpp: parsing a packet out of a
-- buffer, writing one into an array, sealing and checking.
--
-- A buffer is a block of bytes with its size; the places in it are offsets. A function that sets
-- `BytesRead` returns it beside the packet. The wall clock is an argument.
pub mod Found
pub mod Write
pub mod Rest
pub mod Parse
pub mod Receive
pub mod Transfer
pub mod Seal
pub mod Delivery
pub mod Typing
pub mod Calls
use septem_cpp.Common.{
  ℕ, zero, suc, ◌+◌, ◌-◌, ◌≤◌, ◌<◌, ◌≡◌, List, [], ◌∷◌, ◌++◌, Bool, true, false, not, if◌then◌else◌,
  ltb, ◌==◌, bit_xor, take, replicate, length, Access, fault, abort, out_of_fuel, done, ◌>>=◌,
  write,
}
use septem_cpp.Common.Int.{ℤ, pos, negsuc, signed32}
use septem_cpp.Buffer.{buffer_buffer_syncword}
use septem_cpp.Wire.Head
use septem_cpp.Wire.Body
use septem_cpp.Wire.Foot
use septem_cpp.Wire.Head.{Head as HeadStruct}
use septem_cpp.Wire.Body.{Body as BodyStruct}
use septem_cpp.Wire.Foot.{Foot as FootStruct, Timespec}

pub record Packet : Type 0 where
  pub head : HeadStruct
  pub body : BodyStruct
  pub foot : FootStruct
  pub sid : ℕ
  pub fast_integrity : Bool

-- The default constructor.
abbrev pub init : Packet
init = record {
  head = Head.init;
  body = Body.init;
  foot = Foot.init;
  sid = 0;
  fast_integrity = false;
}

-- `IsValid`.
unfoldable pub is_valid : Packet → Bool
is_valid p = p.fast_integrity

-- `0 == Head.uid`
abbrev pub is_heartbeat : Packet → Bool
is_heartbeat p = p.head.uid == 0

module _ (data_ptr : List ℕ) (buffer_size : ℕ) where
  -- The step "read foot", and what follows it.
  unfoldable pub read_foot : Packet → ℕ → ℕ → Access (Packet × ℕ)
  read_foot p index fastcode = do
    r ← Foot.mem_read p.foot data_ptr index (buffer_size - index)
    let (success, foot) = r
    if success
        then done (
          record p {
            foot = foot;
            fast_integrity = bit_xor fastcode (Foot.xor foot) == 0;
            sid = Head.session_id p.head;
          },
          index + Foot.mem_size,
        )
        else done (p, buffer_size)

  -- The step "check and read body" of a packet that is no heartbeat.
  unfoldable pub read_body : Packet → ℕ → ℕ → Access (Packet × ℕ)
  unfolding read_foot
  read_body p index fastcode = do
    r ← Body.mem_read p.body data_ptr index (buffer_size - index) (signed32 p.head.size)
    let (success, body) = r
    if success
        then (Body.xor body >>= λ x.
            read_foot (record p { body = body }) (index + body.length) (bit_xor fastcode x))
        else done (p, buffer_size)

  -- What follows the head, which ends at `index`.
  unfoldable pub read_rest : Packet → ℕ → Access (Packet × ℕ)
  unfolding read_body
  read_rest p index =
      let fastcode = bit_xor 0 (Head.xor p.head) in
      if is_heartbeat p
      then read_foot (record p { sid = Head.session_id p.head }) index fastcode
      else read_body p index fastcode

  -- The step "read head", for a syncword found at `index`.
  unfoldable pub read_head : Packet → ℕ → Access (Packet × ℕ)
  unfolding read_rest
  read_head p index = do
    r ← Head.mem_read p.head data_ptr index (buffer_size - index)
    let (success, head) = r
    if success
        then read_rest (record p { head = head }) (index + Head.mem_size)
        else done (p, buffer_size)

  -- All steps, from "find syncword for head" on.
  unfoldable pub read_packet : Packet → Access (Packet × ℕ)
  unfolding read_head
  read_packet p = do
    index ← buffer_buffer_syncword data_ptr buffer_size p.head.syncword
    elim index [ pos i ↦ read_head p i | negsuc n ↦ done (p, buffer_size) ]

  -- `ReUse` of a packet, with the syncword to look for.
  unfoldable pub reuse : Packet → ℕ → Access (Packet × ℕ)
  unfolding read_packet
  reuse p syncword =
      read_packet (record p {
        sid = 0;
        fast_integrity = false;
        head = record (p.head) { syncword = syncword };
      })

  -- The constructor from a buffer.
  unfoldable pub create : ℕ → Access (Packet × ℕ)
  unfolding read_packet
  create syncword = read_packet (record init { head = record (Head.init) { syncword = syncword } })

  -- `ReUse` with a head that was read before.
  unfoldable pub reuse_head : Packet → HeadStruct → Access (Packet × ℕ)
  unfolding read_rest
  reuse_head p in_head = read_rest (record p { sid = 0; fast_integrity = false; head = in_head }) 0

-- `v.resize(n, 0)`
unfoldable pub resize : List ℕ → ℕ → List ℕ
resize v n = take n v ++ replicate (n - length v) 0

-- `WriteToArray`.
unfoldable pub write_to_array : Packet → List ℕ → Access (List ℕ)
unfolding resize
write_to_array p in_buffer_arr =
    let write_size =
      if is_heartbeat p
      then Head.mem_size + Foot.mem_size
      else Head.mem_size + Foot.mem_size + p.body.length in
    do
      a ← write (resize in_buffer_arr write_size) 0 (Head.to_bytes p.head)
      if is_heartbeat p
          then write a Head.mem_size (Foot.to_bytes p.foot)
          else (Body.deref p.body.buffer_ptr p.body.length >>= λ block.
              write a Head.mem_size block >>= λ b.
              write b (Head.mem_size + p.body.length) (Foot.to_bytes p.foot))

-- `Head.XOR() ^ Body.XOR() ^ Foot.XOR()`, without the body for a heartbeat.
unfoldable pub xor_parts : Packet → Access ℕ
xor_parts p =
    if is_heartbeat p
    then done (bit_xor (Head.xor p.head) (Foot.xor p.foot))
    else (Body.xor p.body >>= λ x. done (bit_xor (bit_xor (Head.xor p.head) x) (Foot.xor p.foot)))

-- `OnSeal`.
unfoldable pub on_seal : Packet → Access Packet
unfolding xor_parts
on_seal p = do
  x ← xor_parts p
  done (record p { head = record (p.head) { fastcode = x }; fast_integrity = true })

-- `OnStampSeal`.
unfoldable pub on_stamp_seal : Packet → Timespec → Access Packet
unfolding on_seal
on_stamp_seal p now = on_seal (record p { foot = Foot.set_now p.foot now })

-- `CheckIntegrity`: the packet, with its new flag, and the result, which is the flag.
unfoldable pub check_integrity : Packet → Access (Packet × Bool)
unfolding xor_parts
check_integrity p = do
  x ← xor_parts p
  let ok = x == p.head.fastcode
  done (record p { fast_integrity = ok }, ok)

-- `GetTimestamp`.
unfoldable pub get_timestamp : Packet → ℕ
get_timestamp p = p.foot.timestamp

-- `CreateHeartbeat`.
unfoldable pub create_heartbeat : ℕ → Timespec → Packet
create_heartbeat syncword now =
    let foot = Foot.set_now Foot.init now in
    let head = record (Head.init) { syncword = syncword } in
    record init {
      head = record head { fastcode = bit_xor (Head.xor head) (Foot.xor foot) };
      foot = foot;
    }

-- `ReUseAsHeartbeat`.
unfoldable pub reuse_as_heartbeat : Packet → ℕ → Timespec → Packet
reuse_as_heartbeat p syncword now =
    let foot = Foot.set_now p.foot now in
    let head = record (Head.reset p.head) { syncword = syncword } in
    record p {
      head = record head { fastcode = bit_xor (Head.xor head) (Foot.xor foot) };
      body = Body.reset p.body;
      foot = foot;
    }

-- `OnDealloc`.
unfoldable pub on_dealloc : Packet → Packet
on_dealloc p = record p {
  sid = 0;
  fast_integrity = false;
  body = Body.reset p.body;
  head = record (p.head) { size = 0 };
}

-- `OnAlloc`.
unfoldable pub on_alloc : Packet → Packet
on_alloc p = record p { head = Head.reset p.head; foot = Foot.reset p.foot }

-- `operator<`: the older packet first.
unfoldable pub less : Packet → Packet → Bool
less p other = ltb p.foot.timestamp other.foot.timestamp
