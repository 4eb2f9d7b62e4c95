-- ===== src/Packet/Seal.antt =====
-- `OnSeal`, `CheckIntegrity` and the heartbeats: what the fastcode is, and what is made of it.
use septem_cpp.Common.{
  ℕ, ◌<◌, ◌≡◌, ◌↔◌, inl, inr, refl, sym, ap, ◌∙◌, ◌++◌, Bool, true, ◌==◌, ==_iff, Bool-cases,
  get_or, done, ◌>>=◌, IsBytes, IsBytes-append, bit_xor, zero-bit_xor, bit_xor_comm, bit_xor_assoc,
  bit_xor_self, bit_xor_cancel, arith,
}
use septem_cpp.Wire.Head
use septem_cpp.Wire.Head.{Head as HeadStruct}
use septem_cpp.Wire.Body
use septem_cpp.Wire.Foot
use septem_cpp.Wire.Foot.{Timespec}
use septem_cpp.Wire.Xor.{xor_loop, xor_loop-append, xor_loop-set, xor_loop-lt, total_xor}
use septem_cpp.Wire.Image.{length-head, head-IsBytes, foot-IsBytes, to_bytes-fastcode}
use septem_cpp.Packet.{
  Packet, init, is_heartbeat, xor_parts, on_seal, check_integrity, create_heartbeat,
  reuse_as_heartbeat,
}
use septem_cpp.Packet.Write.{block_of, payload, image, deref-block, IsBody}

-- The packet with another fastcode.
abbrev pub with_fastcode : Packet → ℕ → Packet
with_fastcode p c = record p { head = record (p.head) { fastcode = c } }

-- "xor value without this byte", as the header describes the fastcode.
abbrev pub xor_without_fastcode : Packet → ℕ
xor_without_fastcode p = xor_loop 0 (image (with_fastcode p 0))

head_xor-fastcode :
    (h : HeadStruct) (c : ℕ)
    → c < 256
    → xor_loop 0 (Head.to_bytes (record h { fastcode = c }))
      ≡ bit_xor (xor_loop 0 (Head.to_bytes (record h { fastcode = 0 }))) c
head_xor-fastcode h c fits =
    let h0 = record h { fastcode = 0 } in
    ap (xor_loop 0) (to_bytes-fastcode h c fits)
    ∙ xor_loop-set (Head.to_bytes h0) 5 c (omega (arith, length-head h0))
    ∙ ap (bit_xor (xor_loop 0 (Head.to_bytes h0))) (byte_5 ∙ zero-bit_xor c)
  where
    byte_5 : bit_xor (get_or (Head.to_bytes (record h { fastcode = 0 })) 5 0) c ≡ bit_xor 0 c
    byte_5 = unfold Head.to_bytes in refl

pub image_xor-fastcode :
    (p : Packet) (c : ℕ)
    → c < 256
    → xor_loop 0 (image (with_fastcode p c)) ≡ bit_xor (xor_without_fastcode p) c
image_xor-fastcode p c fits =
    let rest = payload p ++ Foot.to_bytes p.foot in
    let h0 = Head.to_bytes (record (p.head) { fastcode = 0 }) in
    xor_loop-append (Head.to_bytes (record (p.head) { fastcode = c })) rest
    ∙ ap (λ x. bit_xor x (xor_loop 0 rest)) (head_xor-fastcode p.head c fits)
    ∙ ap (λ x. bit_xor x (xor_loop 0 rest)) (bit_xor_comm (xor_loop 0 h0) c)
    ∙ bit_xor_assoc c (xor_loop 0 h0) (xor_loop 0 rest)
    ∙ ap (bit_xor c) (sym (xor_loop-append h0 rest))
    ∙ bit_xor_comm c (xor_loop 0 (h0 ++ rest))

pub xor_parts-image : (p : Packet) → IsBody p.body → xor_parts p ≡ done (xor_loop 0 (image p))
unfolding xor_parts Head.xor Body.xor Foot.xor
xor_parts-image p v = elim (Bool-cases (is_heartbeat p)) [
  | inl hb ↦ rw hb (ap done (sym (xor_loop-append (Head.to_bytes p.head) (Foot.to_bytes p.foot))))
  | inr hb ↦
      rw (hb, deref-block p.body.buffer_ptr p.body.length v, ◌>>=◌)
        (ap done (
          total_xor (Head.to_bytes p.head) (block_of p.body) (Foot.to_bytes p.foot) _
            (sym (xor_loop-append (Head.to_bytes p.head) (block_of p.body)))))
]

pub image-IsBytes : (p : Packet) → IsBytes (block_of p.body) → IsBytes (image p)
image-IsBytes p v =
    IsBytes-append (Head.to_bytes p.head) (payload p ++ Foot.to_bytes p.foot) (head-IsBytes p.head)
      (IsBytes-append (payload p) (Foot.to_bytes p.foot) pay (foot-IsBytes p.foot))
  where
    pay : IsBytes (payload p)
    pay = elim (Bool-cases (is_heartbeat p)) [ inl hb ↦ rw hb tt | inr hb ↦ rw hb v ]

-- A packet that `OnSeal` and `CheckIntegrity` can work on.
pub record IsSealable (p : Packet) : Type 0 where
  pub body_fits : IsBody p.body
  pub body_bytes : IsBytes (block_of p.body)
  pub fastcode_fits : p.head.fastcode < 256

module _ (p : Packet) (v : IsSealable p) where
  -- What `OnSeal` leaves.
  abbrev pub sealed : Packet
  sealed = record p {
    head = record (p.head) { fastcode = xor_loop 0 (image p) };
    fast_integrity = true;
  }

  pub on_seal-eq : (on_seal p ≡ done sealed) × (xor_loop 0 (image sealed) ≡ p.head.fastcode)
  unfolding on_seal
  on_seal-eq =
      let total = xor_loop 0 (image p) in
      let x = xor_without_fastcode p in
      let code = p.head.fastcode in
      let small = xor_loop-lt (image p) (image-IsBytes p v.body_bytes) in
      (
        rw (xor_parts-image p v.body_fits, ◌>>=◌),
        image_xor-fastcode p total small
            ∙ ap (bit_xor x) (image_xor-fastcode p code v.fastcode_fits)
            ∙ bit_xor_cancel x code,
      )

  -- `OnSeal` returns the packet marked as valid, and the exclusive or of its new image is the old
  -- fastcode: the seal is right exactly if the fastcode was 0 before.
  pub on_seal-xor :
      (s : Packet) × (on_seal p ≡ done s)
      × (s.fast_integrity ≡ true)
      × (xor_loop 0 (image s) ≡ p.head.fastcode)
  on_seal-xor = (sealed, on_seal-eq.0, refl, on_seal-eq.1)

  -- `CheckIntegrity` succeeds exactly if the exclusive or without the fastcode is 0. It does
  -- not depend on the fastcode.
  pub check_integrity_iff :
      (ok : Bool) × (check_integrity p ≡ done (record p { fast_integrity = ok }, ok))
      × ((ok ≡ true) ↔ (xor_without_fastcode p ≡ 0))
  unfolding check_integrity
  check_integrity_iff =
      let total = xor_loop 0 (image p) in
      let x = xor_without_fastcode p in
      let code = p.head.fastcode in
      let e : total ≡ bit_xor x code = image_xor-fastcode p code v.fastcode_fits in
      (
        total == code,
        rw (xor_parts-image p v.body_fits, ◌>>=◌),
        (
          (λ same.
              let t : bit_xor x code ≡ code = sym e ∙ (==_iff total code).0 same in
              sym (bit_xor_cancel code x)
              ∙ ap (bit_xor code) (bit_xor_comm code x ∙ t)
              ∙ bit_xor_self code),
          (λ z. (==_iff total code).1 (e ∙ ap (λ y. bit_xor y code) z ∙ zero-bit_xor code)),
        ),
      )

-- A heartbeat that is complete but for its fastcode.
module _ (p : Packet) (hb : is_heartbeat p ≡ true) (v : IsBytes (block_of p.body)) where
  parts_xor : bit_xor (Head.xor p.head) (Foot.xor p.foot) ≡ xor_loop 0 (image p)
  unfolding Head.xor Foot.xor
  parts_xor = rw hb (sym (xor_loop-append (Head.to_bytes p.head) (Foot.to_bytes p.foot)))

  sealed_xor :
      p.head.fastcode ≡ 0
      → xor_loop 0 (image (with_fastcode p (bit_xor (Head.xor p.head) (Foot.xor p.foot)))) ≡ 0
  sealed_xor zero_code =
      let total = xor_loop 0 (image p) in
      let small = xor_loop-lt (image p) (image-IsBytes p v) in
      let same : xor_without_fastcode p ≡ total =
        λ i. xor_loop 0 (image (with_fastcode p (sym zero_code i))) in
      ap (λ c. xor_loop 0 (image (with_fastcode p c))) parts_xor
      ∙ image_xor-fastcode p total small
      ∙ ap (λ x. bit_xor x total) same
      ∙ bit_xor_self total

-- The image of a heartbeat from `CreateHeartbeat` has the exclusive or 0.
pub create_heartbeat-xor :
    (syncword : ℕ) (now : Timespec) → xor_loop 0 (image (create_heartbeat syncword now)) ≡ 0
unfolding create_heartbeat
create_heartbeat-xor syncword now =
    sealed_xor
      (record init {
        head = record (Head.init) { syncword = syncword };
        foot = Foot.set_now Foot.init now;
      })
      refl tt refl

-- So does that of a packet after `ReUseAsHeartbeat`, whatever the packet was before; and its
-- fastcode is the exclusive or of all other bytes.
pub reuse_as_heartbeat-xor :
    (p : Packet) (syncword : ℕ) (now : Timespec)
    → let q = reuse_as_heartbeat p syncword now in
      (xor_loop 0 (image q) ≡ 0) × (q.head.fastcode ≡ xor_without_fastcode q)
unfolding reuse_as_heartbeat Head.reset Body.reset
reuse_as_heartbeat-xor p syncword now =
    let q = record p {
      head = record (Head.init) { syncword = syncword };
      body = Body.init;
      foot = Foot.set_now p.foot now;
    } in
    (sealed_xor q refl tt refl, parts_xor q refl tt)
