-- ===== src/Packet/Transfer.antt =====
-- A packet written by `WriteToArray` and read by `ReUse` on the other side.
use septem_cpp.Common.{
  ℕ, ◌+◌, ◌-◌, ◌≤◌, ◌<◌, ◌≡◌, sym, ap, ◌∙◌, subst, List, ◌++◌, append_assoc, false, length,
  length-append, done, ◌>>=◌, arith,
}
use septem_cpp.Common.Int.{pos}
use septem_cpp.Buffer.{buffer_buffer_syncword}
use septem_cpp.Buffer.Syncword.{SyncwordAt}
use septem_cpp.Wire.Head
use septem_cpp.Wire.Head.{Head as HeadStruct}
use septem_cpp.Wire.Foot
use septem_cpp.Wire.Image.{length-head, length-foot, mem_read-head}
use septem_cpp.Packet.{Packet, read_head, reuse, write_to_array}
use septem_cpp.Packet.Found.{head_found}
use septem_cpp.Packet.Write.{payload, image, write_to_array-image}
use septem_cpp.Packet.Receive.{IsSendable, received, rest_received}

-- A packet on the wire, behind `g` and before `after`.
abbrev wire_of : Packet → List ℕ → List ℕ → List ℕ
wire_of p g after = g ++ (Head.to_bytes p.head ++ (payload p ++ (Foot.to_bytes p.foot ++ after)))

-- The whole packet behind `g`, where the syncword does not occur earlier.
module _ (p : Packet) (v : IsSendable p) (q : Packet) (g after : List ℕ) where
  abbrev wire : List ℕ
  wire = wire_of p g after

  length-wire : length wire ≡ length g + (16 + (length (payload p) + (8 + length after)))
  length-wire = omega (
    arith,
    length-append g (Head.to_bytes p.head ++ (payload p ++ (Foot.to_bytes p.foot ++ after))),
    length-append (Head.to_bytes p.head) (payload p ++ (Foot.to_bytes p.foot ++ after)),
    length-append (payload p) (Foot.to_bytes p.foot ++ after),
    length-append (Foot.to_bytes p.foot) after,
    length-head p.head,
    length-foot p.foot,
  )

  head_received :
      (w : HeadStruct)
      → read_head wire (length wire) (record q { head = w }) (length g)
        ≡ done (received q p, length g + 16 + length (payload p) + 8)
  unfolding read_head
  head_received w =
      let rest = payload p ++ (Foot.to_bytes p.foot ++ after) in
      let lw = length-wire in
      let here : length g + 16 ≡ length (g ++ Head.to_bytes p.head) =
        omega (arith, length-append g (Head.to_bytes p.head), length-head p.head) in
      rw
        (
          mem_read-head w p.head g rest (length wire - length g) v.head_fits (omega arith),
          ◌>>=◌,
          here,
          ← append_assoc g (Head.to_bytes p.head) rest,
        )
        (rest_received p v q (g ++ Head.to_bytes p.head) after
          (length ((g ++ Head.to_bytes p.head) ++ rest))
          (omega (arith, lw, here, ap length (append_assoc g (Head.to_bytes p.head) rest))))

  syncword_found :
      ((j : ℕ) → j < length g → ¬ SyncwordAt wire p.head.syncword j)
      → buffer_buffer_syncword wire (length wire) p.head.syncword ≡ done (pos (length g))
  syncword_found first =
      let rest = payload p ++ (Foot.to_bytes p.foot ++ after) in
      let room : 8 ≤ length rest = omega (
        arith,
        length-append (payload p) (Foot.to_bytes p.foot ++ after),
        length-append (Foot.to_bytes p.foot) after,
        length-foot p.foot,
      ) in
      head_found p.head v.head_fits g rest room first

module _ (p : Packet) (v : IsSendable p) (q : Packet) (g after : List ℕ) where
  wire_received :
      ((j : ℕ) → j < length g → ¬ SyncwordAt (wire_of p g after) p.head.syncword j)
      → reuse (wire_of p g after) (length (wire_of p g after)) q p.head.syncword
        ≡ done (received q p, length g + length (image p))
  unfolding reuse
  wire_received first =
      let e : length g + 16 + length (payload p) + 8 ≡ length g + length (image p) = omega (
        arith,
        length-append (Head.to_bytes p.head) (payload p ++ Foot.to_bytes p.foot),
        length-append (payload p) (Foot.to_bytes p.foot),
        length-head p.head,
        length-foot p.foot,
      ) in
      rw (syncword_found p v q g after first, ◌>>=◌)
        (head_received p v (record q { sid = 0; fast_integrity = false }) g after
            (record (q.head) { syncword = p.head.syncword })
          ∙ ap (λ n. done (received q p, n)) e)

  image_in_wire : (wire_of p g after) ≡ g ++ (image p ++ after)
  image_in_wire = ap (◌++◌ g) (
      ap (◌++◌ (Head.to_bytes p.head)) (sym (append_assoc (payload p) (Foot.to_bytes p.foot) after))
      ∙ sym (append_assoc (Head.to_bytes p.head) (payload p ++ Foot.to_bytes p.foot) after))

-- What `WriteToArray` writes for a sendable packet, `ReUse` reads back from any buffer that holds it
-- behind bytes where the syncword does not occur, with any bytes after it, and into any packet that
-- is used again: the head, the body (of a heartbeat: the old body) and the foot are the sender's,
-- the packet is valid exactly when the exclusive or of the image is 0, and `BytesRead` is just past
-- the image.
pub reuse-write_to_array :
    (p q : Packet) (in_buffer_arr g after : List ℕ)
    → IsSendable p
    → ((j : ℕ) → j < length g → ¬ SyncwordAt (g ++ (image p ++ after)) p.head.syncword j)
    → (w : List ℕ) × (write_to_array p in_buffer_arr ≡ done w)
      × (reuse (g ++ (w ++ after)) (length (g ++ (w ++ after))) q p.head.syncword
          ≡ done (received q p, length g + length w))
reuse-write_to_array p q arr g after v first = (
  image p,
  write_to_array-image p arr v.body_fits,
  subst
      (λ l.
        ((j : ℕ) → j < length g → ¬ SyncwordAt l p.head.syncword j)
        → reuse l (length l) q p.head.syncword ≡ done (received q p, length g + length (image p)))
      (image_in_wire p v q g after) (wire_received p v q g after) first,
)
