-- ===== src/Wire/Head.antt =====
-- `FSNetBufferHead`: 16 packed bytes.
use Prim.Native.Nat.{bit_and}
use septem_cpp.Common.{
  ℕ, ◌-◌, ◌^◌, List, ◌++◌, Bool, true, false, if◌then◌else◌, ltb, ◌==◌, not, take, drop, Access,
  done, ◌>>=◌, read, le_bytes, le_value,
}
use septem_cpp.Wire.Xor.{xor_loop}

pub record Head : Type 0 where
  pub syncword : ℕ
  pub version : ℕ
  pub fastcode : ℕ
  pub uid : ℕ
  pub size : ℕ
  pub reserved : ℕ

abbrev pub default_syncword : ℕ
default_syncword = 0xE6B7F1A2

-- The default constructor.
abbrev pub init : Head
init = record {
  syncword = default_syncword;
  version = 0;
  fastcode = 0;
  uid = 0;
  size = 0;
  reserved = 0;
}

-- `sizeof(FSNetBufferHead)`, and `MemSize`.
abbrev pub mem_size : ℕ
mem_size = 16

-- The memory image, as `memcpy` from the struct sees it.
unfoldable pub to_bytes : Head → List ℕ
unfolding le_bytes
to_bytes h =
    le_bytes 4 h.syncword
    ++ (le_bytes 1 h.version
        ++ (le_bytes 1 h.fastcode
            ++ (le_bytes 2 h.uid ++ (le_bytes 4 h.size ++ le_bytes 4 h.reserved))))

-- The struct whose image the bytes are, as `memcpy` into the struct leaves it.
unfoldable pub of_bytes : List ℕ → Head
unfolding le_value
of_bytes bs = record {
  syncword = le_value (take 4 bs);
  version = le_value (take 1 (drop 4 bs));
  fastcode = le_value (take 1 (drop 5 bs));
  uid = le_value (take 2 (drop 6 bs));
  size = le_value (take 4 (drop 8 bs));
  reserved = le_value (take 4 (drop 12 bs));
}

-- `MemRead` at `data_ptr + offset`: whether it succeeded, and the struct after it.
unfoldable pub mem_read : Head → List ℕ → ℕ → ℕ → Access (Bool × Head)
unfolding of_bytes
mem_read h data_ptr offset buffer_size =
    if ltb buffer_size mem_size
    then done (false, h)
    else do block ← read data_ptr offset mem_size; done (true, of_bytes block)

-- `XOR`, over the whole struct.
unfoldable pub xor : Head → ℕ
unfolding to_bytes xor_loop
xor h = xor_loop 0 (to_bytes h)

-- `Reset`.
unfoldable pub reset : Head → Head
reset h = record h { version = 0; fastcode = 0; uid = 0; size = 0; reserved = 0 }

-- `SessionID`.
unfoldable pub session_id : Head → ℕ
session_id h = bit_and h.reserved (2 ^ 22 - 1)

-- `IsSerializedPacket`.
unfoldable pub is_serialized_packet : Head → Bool
is_serialized_packet h = not (bit_and h.version 1 == 0)
