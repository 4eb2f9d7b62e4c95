-- ===== src/StaticPacket/Write.antt =====
-- What `WriteToArray` of a static packet writes, for a body whose class serialises as it should.
use septem_cpp.Common.{
  ℕ, ◌+◌, ◌-◌, ◌≡◌, refl, sym, ap, ◌∙◌, inl, inr, List, [], ◌++◌, append_assoc, Bool, true, false,
  if◌then◌else◌, ltb, ◌==◌, Bool-cases, length, length-append, length-drop, drop, done, ◌>>=◌,
  arith,
}
use septem_cpp.Wire.Head
use septem_cpp.Wire.Head.{Head as HeadStruct}
use septem_cpp.Wire.Foot
use septem_cpp.Wire.Xor.{xor_loop}
use septem_cpp.Wire.Image.{IsHead, IsFoot, length-head, length-foot}
use septem_cpp.Packet.{resize}
use septem_cpp.Packet.Write.{length-resize, write_behind, write_last}
use septem_cpp.StaticPacket.{BodyClass, StaticPacket, static_write_to_array}
use septem_cpp.StaticPacket.Body.{IsSerial}

-- A packet without a body: its uid is 0.
abbrev pub has_no_body : {B : Type 0} → StaticPacket B → Bool
has_no_body p = p.head.uid == 0

-- What is on the wire of a packet whose body has the bytes.
abbrev pub static_payload : {B : Type 0} → StaticPacket B → List ℕ → List ℕ
static_payload p bytes = if has_no_body p then [] else bytes

abbrev pub static_image : {B : Type 0} → StaticPacket B → List ℕ → List ℕ
static_image p bytes = Head.to_bytes (p.head) ++ (static_payload p bytes ++ Foot.to_bytes (p.foot))

-- Fields that fit their types, and a body with the bytes.
pub record IsStaticSendable {B : Type 0} (c : BodyClass B) (p : StaticPacket B) (bytes : List ℕ)
    : Type 0 where
  pub head_fits : IsHead p.head
  pub foot_fits : IsFoot p.foot
  pub body_serial : has_no_body p ≡ false → IsSerial c (p.body) bytes

-- What the receiver makes of `p` in the packet `q`.
abbrev pub static_received :
    {B : Type 0} → StaticPacket B → StaticPacket B → List ℕ → StaticPacket B
static_received q p bytes = record {
  head = p.head;
  body = if has_no_body p then q.body else p.body;
  foot = p.foot;
  sid = Head.session_id p.head;
  fast_integrity = xor_loop 0 (static_image p bytes) == 0;
}

zero_test : (n : ℕ) → (n == 0) ≡ true → ltb 0 n ≡ false
zero_test n h = ground arith

positive_test : (n : ℕ) → (n == 0) ≡ false → ltb 0 n ≡ true
positive_test n h = ground arith

module _ {B : Type 0} (c : BodyClass B) (p : StaticPacket B) (bytes in_buffer_arr : List ℕ) where
  write_without_body :
      has_no_body p ≡ true
      → static_write_to_array c p in_buffer_arr
        ≡ done (Head.to_bytes p.head ++ Foot.to_bytes p.foot)
  unfolding static_write_to_array
  write_without_body hb =
      let z = resize in_buffer_arr 24 in
      let lz = length-resize in_buffer_arr 24 in
      let h = Head.to_bytes p.head in
      let lh = length-head p.head in
      let lf = length-foot p.foot in
      rw
        (
          hb,
          zero_test (p.head.uid) hb,
          write_behind [] z h 0 refl (omega arith),
          ◌>>=◌,
          write_last h (drop (length h) z) (Foot.to_bytes p.foot) 16 (sym lh)
              (omega (arith, length-drop (length h) z)),
        )
        refl

  write_with_body :
      has_no_body p ≡ false
      → IsSerial c (p.body) bytes
      → static_write_to_array c p in_buffer_arr
        ≡ done ((Head.to_bytes p.head ++ bytes) ++ Foot.to_bytes p.foot)
  unfolding static_write_to_array
  write_with_body hb v =
      let n = 24 + length bytes in
      let z = resize in_buffer_arr n in
      let lz = length-resize in_buffer_arr n in
      let h = Head.to_bytes p.head in
      let lh = length-head p.head in
      let lf = length-foot p.foot in
      let rest = drop (length bytes) (drop (length h) z) in
      let l1 = length-drop (length h) z in
      let l2 = length-drop (length bytes) (drop (length h) z) in
      rw
        (
          hb,
          positive_test (p.head.uid) hb,
          v.size_eq,
          v.serialize_eq (n - 16) (omega arith),
          write_behind [] z h 0 refl (omega arith),
          ◌>>=◌,
          write_behind h (drop (length h) z) bytes 16 (sym lh) (omega arith),
          ◌>>=◌,
          ← append_assoc h bytes rest,
          write_last (h ++ bytes) rest (Foot.to_bytes p.foot) (16 + length bytes)
              (omega (arith, length-append h bytes)) (omega arith),
        )
        refl

module _ {B : Type 0} (c : BodyClass B) (p : StaticPacket B) (bytes : List ℕ) where
  pub static_write_to_array-image :
      (in_buffer_arr : List ℕ)
      → IsStaticSendable c p bytes
      → static_write_to_array c p in_buffer_arr ≡ done (static_image p bytes)
  static_write_to_array-image arr v = elim (Bool-cases (has_no_body p)) [
    | inl hb ↦ rw hb (write_without_body c p bytes arr hb)
    | inr hb ↦ rw hb (
        write_with_body c p bytes arr hb (v.body_serial hb)
        ∙ ap done (append_assoc (Head.to_bytes p.head) bytes (Foot.to_bytes p.foot)))
  ]
