-- ===== src/StaticPacket/Receive.antt =====
-- What `ReUse` makes of the body and the foot of a static packet that was sent.
use septem_cpp.Common.{
  ℕ, ◌+◌, ◌-◌, ◌≤◌, ◌≡◌, refl, sym, ap, inl, inr, List, ◌++◌, append-nil, append_assoc, true, false,
  ◌==◌, Bool-cases, length, length-append, drop-append, done, ◌>>=◌, bit_xor, zero-bit_xor, arith,
}
use septem_cpp.Wire.Head
use septem_cpp.Wire.Head.{Head as HeadStruct}
use septem_cpp.Wire.Foot
use septem_cpp.Wire.Xor.{xor_loop, xor_loop-append, total_xor}
use septem_cpp.Wire.Image.{mem_read-foot}
use septem_cpp.StaticPacket.{
  BodyClass, StaticPacket, static_read_foot, static_read_body, static_read_rest,
}
use septem_cpp.StaticPacket.Write.{
  has_no_body, static_payload, static_image, IsStaticSendable, static_received,
}

module _ {B : Type 0} (c : BodyClass B) (p q : StaticPacket B) (bytes : List ℕ)
    (v : IsStaticSendable c p bytes) where
  module _ (before after : List ℕ) (size failed : ℕ) where
    -- The foot, behind everything else.
    static_read_foot_received :
        (w : StaticPacket B) (code : ℕ)
        → w.head ≡ p.head
        → code ≡ xor_loop 0 (Head.to_bytes p.head ++ static_payload p bytes)
        → length before + 8 ≤ size
        → static_read_foot c
            (before ++ (Foot.to_bytes p.foot ++ after))
            size
            failed
            w
            (length before)
            code
          ≡ done (
            record w {
              foot = p.foot;
              fast_integrity = xor_loop 0 (static_image p bytes) == 0;
              sid = Head.session_id p.head;
            },
            length before + 8,
          )
    unfolding static_read_foot Foot.xor
    static_read_foot_received w code same_head same room =
        rw
          (
            mem_read-foot w.foot p.foot before after (size - length before) v.foot_fits
                (omega arith),
            ◌>>=◌,
            total_xor (Head.to_bytes p.head) (static_payload p bytes) (Foot.to_bytes p.foot) code
                same,
            same_head,
          )
          refl

  module _ (before after : List ℕ) (size failed : ℕ) where
    rest_without_body :
        has_no_body p ≡ true
        → length before + 8 ≤ size
        → static_read_rest c
            (before ++ (Foot.to_bytes p.foot ++ after))
            size
            failed
            (record q { head = p.head })
            (length before)
          ≡ done (static_received q p bytes, length before + 8)
    unfolding static_read_rest
    rest_without_body hb room =
        rw
          (
            hb,
            zero-bit_xor (Head.xor p.head),
            static_read_foot_received before after size failed
                (record q { head = p.head; sid = Head.session_id p.head }) (Head.xor p.head) refl
                (unfold Head.xor in
                  rw hb (ap (xor_loop 0) (sym (append-nil (Head.to_bytes p.head)))))
                room,
            hb,
          )
          refl

    rest_with_body :
        has_no_body p ≡ false
        → length before + length bytes + 8 ≤ size
        → static_read_rest c
            (before ++ (bytes ++ (Foot.to_bytes p.foot ++ after)))
            size
            failed
            (record q { head = p.head })
            (length before)
          ≡ done (static_received q p bytes, length before + length bytes + 8)
    unfolding static_read_rest static_read_body
    rest_with_body hb room =
        let s = v.body_serial hb in
        let r = Foot.to_bytes p.foot ++ after in
        let code : bit_xor (Head.xor p.head) (xor_loop 0 bytes)
            ≡ xor_loop 0 (Head.to_bytes p.head ++ static_payload p bytes) =
          unfold Head.xor in rw hb (sym (xor_loop-append (Head.to_bytes p.head) bytes)) in
        rw
          (
            hb,
            zero-bit_xor (Head.xor p.head),
            drop-append before (bytes ++ r),
            s.deserialize_eq q.body r (size - length before) (omega arith),
            s.size_eq,
            s.xor_eq,
            ← length-append before bytes,
            ← append_assoc before bytes r,
            static_read_foot_received (before ++ bytes) after size failed
                (record q { head = p.head; body = p.body })
                (bit_xor (Head.xor p.head) (xor_loop 0 bytes)) refl code
                (omega (arith, length-append before bytes)),
            hb,
          )
          refl

    pub static_rest_received :
        length before + length (static_payload p bytes) + 8 ≤ size
        → static_read_rest c
            (before ++ (static_payload p bytes ++ (Foot.to_bytes p.foot ++ after)))
            size
            failed
            (record q { head = p.head })
            (length before)
          ≡ done (static_received q p bytes, length before + length (static_payload p bytes) + 8)
    static_rest_received room = elim (Bool-cases (has_no_body p)) [
      | inr hb ↦ rw hb (rw hb at (rest_with_body hb (rw hb at room)))
      | inl hb ↦
          let room' : length before + 0 + 8 ≤ size = rw hb at room in
          let e : length before + 8 ≡ length before + 0 + 8 = omega arith in
          rw (hb, ← e) (rw hb at (rest_without_body hb (omega arith)))
    ]
