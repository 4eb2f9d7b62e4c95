-- ===== src/Packet/Rest.antt =====
-- Every outcome of parsing what follows a head.
use septem_cpp.Common.{
  ℕ, ◌+◌, ◌-◌, ◌≤◌, ◌≡◌, ◌⊎◌, inl, inr, refl, sym, ap, ◌∙◌, subst, List, [], ◌++◌, append-nil,
  false, ◌==◌, Bool-cases, length, some, Access, done, ◌>>=◌, IsBytes, bit_xor, zero-bit_xor, arith,
}
use septem_cpp.Common.Int.{signed32}
use septem_cpp.Wire.Head
use septem_cpp.Wire.Head.{Head as HeadStruct}
use septem_cpp.Wire.Body
use septem_cpp.Wire.Foot
use septem_cpp.Wire.Foot.{Foot as FootStruct}
use septem_cpp.Wire.Xor.{xor_loop, xor_loop-append, total_xor}
use septem_cpp.Wire.Slice.{slice, length-slice, slice-append, foot-mem_read, body-mem_read}
use septem_cpp.Packet.{Packet, is_heartbeat, read_foot, read_body, read_rest}
use septem_cpp.Packet.Write.{payload, image, deref-block}

-- What follows the head on the wire.
abbrev pub rest_of : Packet → List ℕ
rest_of p = payload p ++ Foot.to_bytes p.foot

-- Nothing was parsed: the whole buffer counts as read, and the packet is not valid.
abbrev pub IsRejected : ℕ → Packet → ℕ → Type 0
IsRejected size q n = (n ≡ size) × (q.fast_integrity ≡ false)

-- `q` was parsed out of the buffer, what follows its head from `base` to `n`, for the head that
-- `p` had.
pub record IsRest (data_ptr : List ℕ) (size base : ℕ) (head : HeadStruct) (q : Packet) (n : ℕ)
    : Type 0 where
  pub fits : n ≤ size
  pub ends : base + length (rest_of q) ≡ n
  pub bytes : rest_of q ≡ slice data_ptr base (length (rest_of q))
  pub flag : q.fast_integrity ≡ (xor_loop 0 (image q) == 0)
  pub session : q.sid ≡ Head.session_id q.head
  pub same_head : q.head ≡ head

module _ (data_ptr : List ℕ) (h : IsBytes data_ptr) (size : ℕ) (held : size ≤ length data_ptr) where
  abbrev pub RestOutcome : ℕ → HeadStruct → Access (Packet × ℕ) → Type 0
  RestOutcome base head result =
      (q : Packet) × (n : ℕ) × (result ≡ done (q, n))
      × (IsRejected size q n ⊎ IsRest data_ptr size base head q n)

  read_foot_outcome :
      (p : Packet) (base d code : ℕ)
      → base + d ≤ size
      → p.fast_integrity ≡ false
      → payload p ≡ slice data_ptr base d
      → code ≡ xor_loop 0 (Head.to_bytes p.head ++ payload p)
      → RestOutcome base p.head (read_foot data_ptr size p (base + d) code)
  unfolding read_foot
  read_foot_outcome p base d code room unset pay same =
      elim (foot-mem_read data_ptr h (base + d) (size - (base + d)) (omega arith) p.foot) [
        | inl short ↦ (p, size, rw (short, ◌>>=◌), inl (refl, unset))
        | inr (fits, foot, reads, img) ↦ (
          record p {
            foot = foot;
            fast_integrity = bit_xor code (Foot.xor foot) == 0;
            sid = Head.session_id p.head;
          },
          base + d + 8,
          rw (reads, ◌>>=◌),
          inr (parsed foot fits img),
        )
      ]
    where
      parsed :
          (foot : FootStruct)
          → 8 ≤ size - (base + d)
          → Foot.to_bytes foot ≡ slice data_ptr (base + d) 8
          → IsRest data_ptr size base p.head
              (record p {
                foot = foot;
                fast_integrity = bit_xor code (Foot.xor foot) == 0;
                sid = Head.session_id p.head;
              })
              (base + d + 8)
      parsed foot fits img =
          let whole : payload p ++ Foot.to_bytes foot ≡ slice data_ptr base (d + 8) =
            (λ i. pay i ++ img i) ∙ slice-append data_ptr base d 8 in
          let len : length (payload p ++ Foot.to_bytes foot) ≡ d + 8 =
            ap length whole ∙ length-slice data_ptr base (d + 8) (omega arith) in
          record {
            fits = omega arith;
            ends = omega arith;
            bytes = whole ∙ ap (slice data_ptr base) (sym len);
            flag =
                unfold Foot.xor in
                ap (λ x. x == 0)
                  (total_xor (Head.to_bytes p.head) (payload p) (Foot.to_bytes foot) code same);
            session = refl;
            same_head = refl;
          }

  read_body_outcome :
      (p : Packet) (base : ℕ)
      → base ≤ size
      → p.fast_integrity ≡ false
      → is_heartbeat p ≡ false
      → RestOutcome base p.head (read_body data_ptr size p base (Head.xor p.head))
  unfolding read_body
  read_body_outcome p base room unset hb =
      elim (body-mem_read data_ptr h base (size - base) (omega arith) p.body
        (signed32 p.head.size)) [
          | inl short ↦ (p, size, rw (short, ◌>>=◌), inl (refl, unset))
          | inr (n, len, fits, reads) ↦
              let block = slice data_ptr base n in
              let e : n ≡ length block = sym (length-slice data_ptr base n (omega arith)) in
              let q = record p { body = record { buffer_ptr = some block; length = n } } in
              let pay : payload q ≡ block = rw hb in
              let xored : Body.xor q.body ≡ done (xor_loop 0 block) =
                unfold Body.xor in rw (deref-block (some block) n e) in
              let code : bit_xor (Head.xor p.head) (xor_loop 0 block)
                  ≡ xor_loop 0 (Head.to_bytes p.head ++ payload q) =
                unfold Head.xor in
                sym (xor_loop-append (Head.to_bytes p.head) block)
                ∙ ap (λ l. xor_loop 0 (Head.to_bytes p.head ++ l)) (sym pay) in
              rw (reads, ◌>>=◌, xored)
                (read_foot_outcome q base n (bit_xor (Head.xor p.head) (xor_loop 0 block))
                  (omega arith) unset pay code)
        ]

  -- Everything behind a head that has been read.
  pub read_rest_outcome :
      (p : Packet) (base : ℕ)
      → base ≤ size
      → p.fast_integrity ≡ false
      → RestOutcome base p.head (read_rest data_ptr size p base)
  unfolding read_rest
  read_rest_outcome p base room unset = elim (Bool-cases (is_heartbeat p)) [
    | inr hb ↦ rw (hb, zero-bit_xor (Head.xor p.head)) (read_body_outcome p base room unset hb)
    | inl hb ↦
        let q = record p { sid = Head.session_id p.head } in
        let pay : payload q ≡ [] = rw hb in
        let e : base + 0 ≡ base = omega arith in
        let code : Head.xor p.head ≡ xor_loop 0 (Head.to_bytes p.head ++ payload q) =
          unfold Head.xor in
          ap (xor_loop 0) (sym (append-nil (Head.to_bytes p.head)))
          ∙ ap (λ l. xor_loop 0 (Head.to_bytes p.head ++ l)) (sym pay) in
        rw (hb, zero-bit_xor (Head.xor p.head))
          (subst (λ k. RestOutcome base p.head (read_foot data_ptr size q k (Head.xor p.head))) e
            (read_foot_outcome q base 0 (Head.xor p.head) (omega arith) unset pay code))
  ]
