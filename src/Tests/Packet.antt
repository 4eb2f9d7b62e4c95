-- ===== src/Tests/Packet.antt =====
-- Packets and buffers for the theorems on `FSNetPacket`.
use septem_cpp.Common.{
  ℕ, ◌+◌, ◌≡◌, ◌↔◌, refl, List, [], ◌∷◌, ◌++◌, Bool, true, false, length, some, done, read,
  le_value, arith,
}
use septem_cpp.Buffer.{buffer_buffer_syncword}
use septem_cpp.Wire.Head
use septem_cpp.Wire.Body
use septem_cpp.Wire.Foot
use septem_cpp.Wire.Foot.{Timespec}
use septem_cpp.Wire.Xor.{xor_loop}
use septem_cpp.Packet
use septem_cpp.Packet.{
  Packet, on_seal, reuse, reuse_head, write_to_array, check_integrity, reuse_as_heartbeat,
}
use septem_cpp.Packet.Write.{image, write_to_array-image}
use septem_cpp.Packet.Parse.{PacketOutcome, reuse_outcome, reuse_head_outcome}
use septem_cpp.Packet.Rest.{RestOutcome}
use septem_cpp.Packet.Transfer.{reuse-write_to_array}
use septem_cpp.Packet.Receive.{IsSendable, received}
use septem_cpp.Packet.Seal.{IsSealable, xor_without_fastcode, on_seal-xor, reuse_as_heartbeat-xor}
use septem_cpp.Packet.Delivery.{sealed_received, check_integrity_accepted}

-- A packet of class 7 with three bytes.
abbrev letter : Packet
letter = record {
  head = record {
    syncword = Head.default_syncword;
    version = 0;
    fastcode = 0;
    uid = 7;
    size = 3;
    reserved = 42;
  };
  body = record { buffer_ptr = some (1 ∷ 2 ∷ 4 ∷ []); length = 3 };
  foot = record { timestamp = 1000 };
  sid = 0;
  fast_integrity = false;
}

letter-IsSendable : IsSendable letter
letter-IsSendable = record {
  head_fits = record {
    syncword_fits = omega arith;
    version_fits = omega arith;
    fastcode_fits = omega arith;
    uid_fits = omega arith;
    size_fits = omega arith;
    reserved_fits = omega arith;
  };
  foot_fits = omega arith;
  body_fits = refl;
  body_filled = λ hb. record {
    owned = refl;
    same_length = refl;
    same_size = refl;
    not_negative = omega arith;
  };
}

letter-IsSealable : IsSealable letter
letter-IsSealable = record {
  body_fits = refl;
  body_bytes = omega arith;
  fastcode_fits = omega arith;
}

sealed_received_example :
    (s : Packet) × (on_seal letter ≡ done s)
    × (w : List ℕ) × (write_to_array s [] ≡ done w)
    × (reuse (w ++ (9 ∷ [])) (length (w ++ (9 ∷ []))) Packet.init Head.default_syncword
        ≡ done (received Packet.init s, length w))
    × ((received Packet.init s).fast_integrity ≡ true)
sealed_received_example =
    sealed_received letter Packet.init [] (9 ∷ []) letter-IsSendable (omega arith) refl

reuse-write_to_array_example :
    (w : List ℕ) × (write_to_array letter (5 ∷ []) ≡ done w)
    × (reuse (w ++ (9 ∷ [])) (length (w ++ (9 ∷ []))) Packet.init Head.default_syncword
        ≡ done (received Packet.init letter, 0 + length w))
reuse-write_to_array_example =
    reuse-write_to_array letter Packet.init (5 ∷ []) [] (9 ∷ []) letter-IsSendable
      (λ j h. absurd (omega arith))

write_to_array-image_example : write_to_array letter (5 ∷ 6 ∷ []) ≡ done (image letter)
write_to_array-image_example = write_to_array-image letter (5 ∷ 6 ∷ []) refl

-- A buffer with the syncword and too few bytes behind it.
abbrev cut_off : List ℕ
cut_off = 162 ∷ 241 ∷ 183 ∷ 230 ∷ 0 ∷ 0 ∷ 7 ∷ 0 ∷ 3 ∷ 0 ∷ []

cut_off_rejected :
    reuse cut_off 10 letter Head.default_syncword
    ≡ done (record letter { head = record (letter.head) { syncword = Head.default_syncword } }, 10)
unfolding reuse buffer_buffer_syncword read le_value Head.mem_read
cut_off_rejected = refl

reuse_outcome_example :
    PacketOutcome cut_off
      (omega arith)
      10
      (omega arith)
      Head.default_syncword
      (reuse cut_off 10 letter Head.default_syncword)
reuse_outcome_example =
    reuse_outcome cut_off (omega arith) 10 (omega arith) letter Head.default_syncword

reuse_head_outcome_example :
    RestOutcome cut_off
      (omega arith)
      10
      (omega arith)
      0
      letter.head
      (reuse_head cut_off 10 Packet.init letter.head)
reuse_head_outcome_example =
    reuse_head_outcome cut_off (omega arith) 10 (omega arith) Packet.init letter.head

on_seal-xor_example :
    (s : Packet) × (on_seal letter ≡ done s)
    × (s.fast_integrity ≡ true)
    × (xor_loop 0 (image s) ≡ 0)
on_seal-xor_example = on_seal-xor letter letter-IsSealable

-- Noon on a day of 2019.
abbrev noon : Timespec
noon = record { tv_sec = 1568721600; tv_nsec = 5000000 }

abbrev beat : Packet
beat = reuse_as_heartbeat letter Head.default_syncword noon

reuse_as_heartbeat-xor_example :
    (xor_loop 0 (image beat) ≡ 0) × (beat.head.fastcode ≡ xor_without_fastcode beat)
reuse_as_heartbeat-xor_example = reuse_as_heartbeat-xor letter Head.default_syncword noon

beat-IsSealable : IsSealable beat
unfolding reuse_as_heartbeat Head.reset Body.reset Head.xor Foot.xor Foot.set_now
beat-IsSealable = record { body_fits = refl; body_bytes = tt; fastcode_fits = omega arith }

check_integrity_accepted_example :
    (ok : Bool) × (check_integrity beat ≡ done (record beat { fast_integrity = ok }, ok))
    × ((ok ≡ true) ↔ (beat.head.fastcode ≡ 0))
check_integrity_accepted_example =
    check_integrity_accepted beat beat-IsSealable reuse_as_heartbeat-xor_example.0
