-- ===== src/StaticPacket/Transfer.antt =====
-- A static packet written by `WriteToArray` and read by `ReUse` on the other side, for a body whose
-- class serialises as it should.
use septem_cpp.Common.{
  ℕ, ◌+◌, ◌-◌, ◌<◌, ◌≡◌, sym, ap, ◌∙◌, subst, List, ◌++◌, append_assoc, false, length,
  length-append, done, ◌>>=◌, arith,
}
use septem_cpp.Buffer.Syncword.{SyncwordAt}
use septem_cpp.Wire.Head
use septem_cpp.Wire.Head.{Head as HeadStruct}
use septem_cpp.Wire.Foot
use septem_cpp.Wire.Image.{length-head, length-foot, mem_read-head}
use septem_cpp.Packet.Found.{head_found}
use septem_cpp.StaticPacket.{
  BodyClass, StaticPacket, static_read_head, static_read_packet, static_reuse,
  static_write_to_array,
}
use septem_cpp.StaticPacket.Write.{
  static_payload, static_image, IsStaticSendable, static_received, static_write_to_array-image,
}
use septem_cpp.StaticPacket.Receive.{static_rest_received}

module _ {B : Type 0} (c : BodyClass B) (p q : StaticPacket B) (bytes : List ℕ)
    (v : IsStaticSendable c p bytes) where
  module _ (g after : List ℕ) where
    abbrev static_rest : List ℕ
    static_rest = static_payload p bytes ++ (Foot.to_bytes p.foot ++ after)

    abbrev static_wire : List ℕ
    static_wire = g ++ (Head.to_bytes p.head ++ static_rest)

    length-static_rest : length static_rest ≡ length (static_payload p bytes) + (8 + length after)
    length-static_rest = omega (
      arith,
      length-append (static_payload p bytes) (Foot.to_bytes p.foot ++ after),
      length-append (Foot.to_bytes p.foot) after,
      length-foot p.foot,
    )

    length-static_wire : length static_wire ≡ length g + (16 + length static_rest)
    length-static_wire = omega (
      arith,
      length-append g (Head.to_bytes p.head ++ static_rest),
      length-append (Head.to_bytes p.head) static_rest,
      length-head p.head,
    )

    static_head_received :
        (w : HeadStruct)
        → static_read_head c static_wire
            (length static_wire)
            (length static_wire)
            (record q { head = w })
            (length g)
          ≡ done (static_received q p bytes, length g + 16 + length (static_payload p bytes) + 8)
    unfolding static_read_head
    static_head_received w =
        let lw = length-static_wire in
        let lr = length-static_rest in
        let here : length g + 16 ≡ length (g ++ Head.to_bytes p.head) =
          omega (arith, length-append g (Head.to_bytes p.head), length-head p.head) in
        rw
          (
            mem_read-head w p.head g static_rest (length static_wire - length g) v.head_fits
                (omega arith),
            ◌>>=◌,
            here,
            ← append_assoc g (Head.to_bytes p.head) static_rest,
          )
          (static_rest_received c p q bytes v (g ++ Head.to_bytes p.head) after
            (length ((g ++ Head.to_bytes p.head) ++ static_rest))
            (length ((g ++ Head.to_bytes p.head) ++ static_rest))
            (omega
              (arith, lw, lr, here, ap length (append_assoc g (Head.to_bytes p.head) static_rest))))

module _ {B : Type 0} (c : BodyClass B) (p q : StaticPacket B) (bytes : List ℕ)
    (v : IsStaticSendable c p bytes) (g after : List ℕ) where
  static_wire_received :
      ((j : ℕ) → j < length g → ¬ SyncwordAt (static_wire c p q bytes v g after) p.head.syncword j)
      → static_reuse c q
          (static_wire c p q bytes v g after)
          (length (static_wire c p q bytes v g after))
          p.head.syncword
        ≡ done (static_received q p bytes, length g + length (static_image p bytes))
  unfolding static_reuse static_read_packet
  static_wire_received first =
      let e : length g + 16 + length (static_payload p bytes) + 8
          ≡ length g + length (static_image p bytes) =
        omega (
          arith,
          length-append (Head.to_bytes p.head) (static_payload p bytes ++ Foot.to_bytes p.foot),
          length-append (static_payload p bytes) (Foot.to_bytes p.foot),
          length-head p.head,
          length-foot p.foot,
        ) in
      let lr = length-static_rest c p q bytes v g after in
      rw
        (
          head_found p.head v.head_fits g (static_rest c p q bytes v g after) (omega arith) first,
          ◌>>=◌,
        )
        (static_head_received c p (record q { sid = 0; fast_integrity = false }) bytes v g after
            (record (q.head) { syncword = p.head.syncword })
          ∙ ap (λ n. done (static_received q p bytes, n)) e)

  static_image-wire : static_wire c p q bytes v g after ≡ g ++ (static_image p bytes ++ after)
  static_image-wire = ap (◌++◌ g) (
      ap (◌++◌ (Head.to_bytes p.head))
        (sym (append_assoc (static_payload p bytes) (Foot.to_bytes p.foot) after))
      ∙ sym (
          append_assoc (Head.to_bytes p.head) (static_payload p bytes ++ Foot.to_bytes p.foot)
            after))

-- For a static packet whose fields fit their types and whose body, unless the uid is 0,
-- serialises to the bytes as its class promises: WriteToArray returns, and ReUse of any packet
-- finds what it wrote in any buffer behind bytes where the syncword does not occur, with any
-- bytes after it. The head, the foot and the body (for the uid 0: the old body) are the
-- sender's, the flag tells whether the exclusive or of the image is 0, and BytesRead is just
-- past the image.
pub static_reuse-static_write_to_array :
    {B : Type 0} (c : BodyClass B) (p q : StaticPacket B) (bytes in_buffer_arr g after : List ℕ)
    → IsStaticSendable c p bytes
    → ((j : ℕ)
        → j < length g
        → ¬ SyncwordAt (g ++ (static_image p bytes ++ after)) p.head.syncword j)
    → (w : List ℕ) × (static_write_to_array c p in_buffer_arr ≡ done w)
      × (static_reuse c q (g ++ (w ++ after)) (length (g ++ (w ++ after))) p.head.syncword
          ≡ done (static_received q p bytes, length g + length w))
static_reuse-static_write_to_array c p q bytes arr g after v first = (
  static_image p bytes,
  static_write_to_array-image c p bytes arr v,
  subst
      (λ l.
        ((j : ℕ) → j < length g → ¬ SyncwordAt l p.head.syncword j)
        → static_reuse c q l (length l) p.head.syncword
          ≡ done (static_received q p bytes, length g + length (static_image p bytes)))
      (static_image-wire c p q bytes v g after) (static_wire_received c p q bytes v g after) first,
)
