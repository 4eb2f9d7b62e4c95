-- ===== src/Wire/Ranges.antt =====
-- What `MemRead` reads from bytes fits the types of the fields.
use septem_cpp.Common.{
  ℕ, zero, suc, ◌+◌, ◌-◌, ◌^◌, ◌≤◌, ◌<◌, ◌≡◌, refl, inl, inr, List, [], ◌∷◌, Bool, true, false, ltb,
  Bool-cases, length, take, drop, done, ◌>>=◌, read-done, IsBytes, le_value, bit_and-le, arith,
}
use native.Mathlib.Nat.{pow-suc}
use septem_cpp.Wire.Head
use septem_cpp.Wire.Head.{Head as HeadStruct}
use septem_cpp.Wire.Foot
use septem_cpp.Wire.Foot.{Foot as FootStruct, Timespec}
use septem_cpp.Wire.Image.{IsHead, IsFoot}
use septem_cpp.Wire.Slice.{slice, IsBytes-drop, IsBytes-slice}

le_value-take : (k : ℕ) (bs : List ℕ) → IsBytes bs → le_value (take k bs) < 256 ^ k
unfolding le_value
le_value-take zero bs h = omega arith
le_value-take (suc k) [] h = omega (arith, le_value-take k [] tt, pow-suc 256 k)
le_value-take (suc k) (b ∷ bs) (p, q) = omega (arith, le_value-take k bs q, pow-suc 256 k)

of_bytes-IsHead : (bs : List ℕ) → IsBytes bs → IsHead (Head.of_bytes bs)
unfolding Head.of_bytes
of_bytes-IsHead bs h = record {
  syncword_fits = le_value-take 4 bs h;
  version_fits = le_value-take 1 (drop 4 bs) (IsBytes-drop 4 bs h);
  fastcode_fits = le_value-take 1 (drop 5 bs) (IsBytes-drop 5 bs h);
  uid_fits = le_value-take 2 (drop 6 bs) (IsBytes-drop 6 bs h);
  size_fits = le_value-take 4 (drop 8 bs) (IsBytes-drop 8 bs h);
  reserved_fits = le_value-take 4 (drop 12 bs) (IsBytes-drop 12 bs h);
}

-- A session id has 22 bits.
pub session_id-lt : (h : HeadStruct) → Head.session_id h < 2 ^ 22
unfolding Head.session_id
session_id-lt h = omega (arith, bit_and-le (h.reserved) (2 ^ 22 - 1))

pub set_now-IsFoot : (f : FootStruct) (now : Timespec) → IsFoot (Foot.set_now f now)
unfolding Foot.set_now Foot.unix_timestamp_millisecond
set_now-IsFoot f now = omega arith

-- `MemRead` of a head and of a foot with what is left of a buffer of bytes from `index` on.
module _ (bs : List ℕ) (h : IsBytes bs) (size : ℕ) (held : size ≤ length bs) where
  pub mem_read-IsHead :
      (old : HeadStruct) (index : ℕ)
      → IsHead old
      → (ok : Bool) × (new : HeadStruct) × (Head.mem_read old bs index (size - index)
          ≡ done (ok, new))
        × IsHead new
        × (ok ≡ true → index + 16 ≤ size)
  unfolding Head.mem_read
  mem_read-IsHead old index v = elim (Bool-cases (ltb (size - index) 16)) [
    | inl short ↦ (false, old, rw short refl, v, λ e. absurd cc)
    | inr enough ↦
        let room : index + 16 ≤ length bs = ground arith in
        (
          true,
          Head.of_bytes (slice bs index 16),
          rw (enough, read-done bs index 16 room, ◌>>=◌) refl,
          of_bytes-IsHead (slice bs index 16) (IsBytes-slice bs index 16 h),
          λ e. ground arith,
        )
  ]

  pub mem_read-IsFoot :
      (old : FootStruct) (index : ℕ)
      → IsFoot old
      → (ok : Bool) × (new : FootStruct) × (Foot.mem_read old bs index (size - index)
          ≡ done (ok, new))
        × IsFoot new
  unfolding Foot.mem_read
  mem_read-IsFoot old index v = elim (Bool-cases (ltb (size - index) 8)) [
    | inl short ↦ (false, old, rw short refl, v)
    | inr enough ↦
        let room : index + 8 ≤ length bs = ground arith in
        (
          true,
          record { timestamp = le_value (slice bs index 8) },
          rw (enough, read-done bs index 8 room, ◌>>=◌) refl,
          le_value-take 8 (drop index bs) (IsBytes-drop index bs h),
        )
  ]
