-- ===== src/Wire/Foot.antt =====
-- `FSNetBufferFoot`: 8 packed bytes (`SERVO_PROTOCOL_SIGNATURE` is not defined), and the clock of
-- Core/Algorithm/SeptemAlgorithm.h that stamps it.
use septem_cpp.Common.{
  ℕ, ◌+◌, ◌*◌, ◌/◌, ◌%◌, ◌^◌, List, Bool, true, false, if◌then◌else◌, ltb, Access, done, ◌>>=◌,
  read, le_bytes, le_value,
}
use septem_cpp.Wire.Xor.{xor_loop}

pub record Foot : Type 0 where
  pub timestamp : ℕ

-- The default constructor.
abbrev pub init : Foot
init = record { timestamp = 0 }

-- `sizeof(FSNetBufferFoot)`, and `MemSize`.
abbrev pub mem_size : ℕ
mem_size = 8

-- The memory image.
unfoldable pub to_bytes : Foot → List ℕ
unfolding le_bytes
to_bytes f = le_bytes 8 f.timestamp

-- `MemRead` at `data_ptr + offset`.
unfoldable pub mem_read : Foot → List ℕ → ℕ → ℕ → Access (Bool × Foot)
unfolding le_value
mem_read f data_ptr offset buffer_size = if ltb buffer_size mem_size then done (false, f) else do
  block ← read data_ptr offset mem_size
  done (true, record { timestamp = le_value block })

-- `XOR`, over the whole struct.
unfoldable pub xor : Foot → ℕ
unfolding to_bytes xor_loop
xor f = xor_loop 0 (to_bytes f)

-- `Reset`.
unfoldable pub reset : Foot → Foot
reset f = record f { timestamp = 0 }

-- What `clock_gettime` gives.
pub record Timespec : Type 0 where
  pub tv_sec : ℕ
  pub tv_nsec : ℕ

-- `UnixTimestampMillisecond`, for the time that the clock shows.
unfoldable pub unix_timestamp_millisecond : Timespec → ℕ
unix_timestamp_millisecond tp = (tp.tv_sec * 1000 + tp.tv_nsec / 1000000) % 2 ^ 64

-- `SetNow`.
unfoldable pub set_now : Foot → Timespec → Foot
unfolding unix_timestamp_millisecond
set_now f tp = record f { timestamp = unix_timestamp_millisecond tp }
