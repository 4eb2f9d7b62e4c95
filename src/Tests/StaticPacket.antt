-- ===== src/Tests/StaticPacket.antt =====
-- A class of bodies that are one word of four bytes.
use septem_cpp.Common.{
  ℕ, ◌+◌, ◌<◌, ◌^◌, ◌≡◌, refl, read, ◌>>=◌, List, [], ◌∷◌, ◌++◌, true, false, if◌then◌else◌, ltb,
  take, length, done, le_bytes, le_value, le_value-le_bytes, arith,
}
use septem_cpp.Buffer.{buffer_buffer_syncword}
use septem_cpp.Wire.Xor.{xor_loop}
use septem_cpp.Wire.Head
use septem_cpp.Wire.Head.{default_syncword}
use septem_cpp.StaticPacket.{BodyClass, StaticPacket, init, static_reuse, static_write_to_array}
use septem_cpp.StaticPacket.Create.{static_create}
use septem_cpp.StaticPacket.Failure.{IsSameBut, static_create-IsSameBut}
use septem_cpp.StaticPacket.Body.{Wrapper, wrapper_class, IsSerial, wrapper_class-IsSerial}
use septem_cpp.StaticPacket.Write.{IsStaticSendable, static_received}
use septem_cpp.StaticPacket.Transfer.{static_reuse-static_write_to_array}

abbrev pub word_class : BodyClass ℕ
word_class = record {
  initial = 0;
  reset_body = λ w. 0;
  serialize = λ w size. if ltb size 4 then (false, []) else (true, le_bytes 4 w);
  deserialize = λ w block size. if ltb size 4 then (false, w) else (true, le_value (take 4 block));
  body_size = λ w. 4;
  xor_body = λ w. xor_loop 0 (le_bytes 4 w);
}

abbrev noise : List ℕ
noise = 1 ∷ 2 ∷ 3 ∷ 4 ∷ 5 ∷ 6 ∷ []

static_create-IsSameBut_example :
    IsSameBut true 7 6
      (static_create word_class 33 true noise 6 default_syncword)
      (static_reuse word_class (init word_class) noise 6 default_syncword)
static_create-IsSameBut_example =
    static_create-IsSameBut word_class noise 6 default_syncword 33 true

-- The constructor finds no packet in noise, and the packet is as valid as its memory was before.
failed_and_valid :
    (static_create word_class 33 true noise 6 default_syncword >>= λ r. done ((r.0).fast_integrity))
    ≡ done true
unfolding static_create buffer_buffer_syncword read le_value
failed_and_valid = refl

pub word_class-IsSerial : (w : ℕ) → w < 2 ^ 32 → IsSerial word_class w (le_bytes 4 w)
unfolding le_bytes
word_class-IsSerial w h = record {
  size_eq = refl;
  serialize_eq = λ n k. let e : ltb n 4 ≡ false = ground arith in rw e refl;
  deserialize_eq = λ old r n k.
      let e : ltb n 4 ≡ false = ground arith in rw e (λ i. (true, le_value-le_bytes 4 w h i));
  xor_eq = refl;
}

abbrev pub word_packet : StaticPacket (Wrapper ℕ)
word_packet = record (init (wrapper_class word_class)) {
  head = record (Head.init) { uid = 7; size = 4 };
  body = record { obj = 1000 };
}

word_packet-IsStaticSendable :
    IsStaticSendable (wrapper_class word_class) word_packet (le_bytes 4 1000)
word_packet-IsStaticSendable = record {
  head_fits = record {
    syncword_fits = omega arith;
    version_fits = omega arith;
    fastcode_fits = omega arith;
    uid_fits = omega arith;
    size_fits = omega arith;
    reserved_fits = omega arith;
  };
  foot_fits = omega arith;
  body_serial = λ h.
      wrapper_class-IsSerial word_class (word_packet.body) (le_bytes 4 1000)
        (word_class-IsSerial 1000 (omega arith));
}

static_reuse-static_write_to_array_example :
    (w : List ℕ) × (static_write_to_array (wrapper_class word_class) word_packet (5 ∷ []) ≡ done w)
    × (static_reuse
          (wrapper_class word_class)
          (init (wrapper_class word_class))
          (w ++ (9 ∷ []))
          (length (w ++ (9 ∷ [])))
          default_syncword
        ≡ done (
          static_received (init (wrapper_class word_class)) word_packet (le_bytes 4 1000),
          0 + length w,
        ))
static_reuse-static_write_to_array_example =
    static_reuse-static_write_to_array (wrapper_class word_class) word_packet
      (init (wrapper_class word_class)) (le_bytes 4 1000) (5 ∷ []) [] (9 ∷ [])
      word_packet-IsStaticSendable (λ j h. absurd (omega arith))
