-- ===== src/Packet/Delivery.antt =====
-- From `OnSeal` over the wire to the receiver's verdicts.
use septem_cpp.Common.{
  ℕ, ◌+◌, ◌<◌, ◌≡◌, ◌↔◌, sym, ap, ◌∙◌, List, [], ◌++◌, Bool, true, ◌==◌, length, done, IsBytes,
  eq_of_bit_xor, arith,
}
use septem_cpp.Wire.Xor.{xor_loop, xor_loop-lt}
use septem_cpp.Packet.{Packet, on_seal, reuse, write_to_array, check_integrity}
use septem_cpp.Packet.Write.{block_of, image}
use septem_cpp.Packet.Transfer.{reuse-write_to_array}
use septem_cpp.Packet.Receive.{IsSendable, received}
use septem_cpp.Packet.Seal.{
  IsSealable, with_fastcode, xor_without_fastcode, check_integrity_iff, image-IsBytes,
  image_xor-fastcode, on_seal-eq,
}

IsSendable-with_fastcode :
    (p : Packet) (c : ℕ)
    → c < 256
    → IsSendable p
    → IsSendable (record (with_fastcode p c) { fast_integrity = true })
IsSendable-with_fastcode p c fits v = record {
  head_fits = record {
    syncword_fits = v.head_fits.syncword_fits;
    version_fits = v.head_fits.version_fits;
    fastcode_fits = fits;
    uid_fits = v.head_fits.uid_fits;
    size_fits = v.head_fits.size_fits;
    reserved_fits = v.head_fits.reserved_fits;
  };
  foot_fits = v.foot_fits;
  body_fits = v.body_fits;
  body_filled = λ hb.
      let f = v.body_filled hb in
      record {
        owned = f.owned;
        same_length = f.same_length;
        same_size = f.same_size;
        not_negative = f.not_negative;
      };
}

-- A sendable packet with the fastcode 0 that is sealed and written at the front of a buffer is
-- read back, whatever packet is used again and whatever follows it, as the sealed packet, with
-- `BytesRead` at its end, and is valid.
pub sealed_received :
    (p q : Packet) (in_buffer_arr after : List ℕ)
    → IsSendable p
    → IsBytes (block_of p.body)
    → p.head.fastcode ≡ 0
    → (s : Packet) × (on_seal p ≡ done s)
      × (w : List ℕ) × (write_to_array s in_buffer_arr ≡ done w)
      × (reuse (w ++ after) (length (w ++ after)) q p.head.syncword ≡ done (received q s, length w))
      × ((received q s).fast_integrity ≡ true)
sealed_received p q arr after v bytes zero_code =
    let total = xor_loop 0 (image p) in
    let small = xor_loop-lt (image p) (image-IsBytes p bytes) in
    let s = record (with_fastcode p total) { fast_integrity = true } in
    let sealable : IsSealable p = record {
      body_fits = v.body_fits;
      body_bytes = bytes;
      fastcode_fits = v.head_fits.fastcode_fits;
    } in
    let sent =
      reuse-write_to_array s q arr [] after (IsSendable-with_fastcode p total small v)
        (λ j h. absurd (omega arith)) in
    let xored : xor_loop 0 (image s) ≡ 0 = (on_seal-eq p sealable).1 ∙ zero_code in
    (
      s,
      (on_seal-eq p sealable).0,
      sent.0,
      sent.1,
      sent.2
          ∙ ap (λ n. done (received q s, n))
              (let e : 0 + length sent.0 ≡ length sent.0 = omega arith in e),
      ap (λ x. x == 0) xored,
    )

-- For a packet that a receiver accepts (the exclusive or of its image is 0), `CheckIntegrity`
-- succeeds exactly if the fastcode is 0, so it refuses every accepted packet with another fastcode.
pub check_integrity_accepted :
    (p : Packet)
    → IsSealable p
    → xor_loop 0 (image p) ≡ 0
    → (ok : Bool) × (check_integrity p ≡ done (record p { fast_integrity = ok }, ok))
      × ((ok ≡ true) ↔ (p.head.fastcode ≡ 0))
check_integrity_accepted p v accepted =
    let c = check_integrity_iff p v in
    let same : xor_without_fastcode p ≡ p.head.fastcode =
      eq_of_bit_xor _ _ (sym (image_xor-fastcode p p.head.fastcode v.fastcode_fits) ∙ accepted) in
    (c.0, c.1, ((λ t. sym same ∙ c.2.0 t), (λ z. c.2.1 (same ∙ z))))
