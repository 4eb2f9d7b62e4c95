-- ===== src/Packet/Receive.antt =====
-- What `ReUse` makes of the body and the foot of a packet that was sent.
use septem_cpp.Common.{
  ℕ, ◌+◌, ◌-◌, ◌^◌, ◌≤◌, ◌<◌, ◌≡◌, inl, inr, refl, sym, ap, ◌∙◌, List, ◌++◌, append-nil,
  append_assoc, true, false, if◌then◌else◌, ltb, ◌==◌, Bool-cases, length, length-append, some,
  done, ◌>>=◌, read_middle, bit_xor, zero-bit_xor, arith,
}
use septem_cpp.Common.Int.{pos, signed32}
use septem_cpp.Wire.Head
use septem_cpp.Wire.Head.{Head as HeadStruct}
use septem_cpp.Wire.Body
use septem_cpp.Wire.Body.{Body as BodyStruct}
use septem_cpp.Wire.Foot
use septem_cpp.Wire.Xor.{xor_loop, xor_loop-append, total_xor}
use septem_cpp.Wire.Image.{IsHead, IsFoot, mem_read-foot}
use septem_cpp.Packet.{Packet, is_heartbeat, read_foot, read_rest}
use septem_cpp.Packet.Write.{block_of, payload, image, deref-block, IsBody}

-- A body with a block of its own, as long as it and the head say.
pub record IsFilled (head : HeadStruct) (body : BodyStruct) : Type 0 where
  pub owned : body.buffer_ptr ≡ some (block_of body)
  pub same_length : body.length ≡ length (block_of body)
  pub same_size : head.size ≡ body.length
  pub not_negative : head.size < 2 ^ 31

-- A packet whose fields fit their types, with a filled body unless it is a heartbeat.
pub record IsSendable (p : Packet) : Type 0 where
  pub head_fits : IsHead p.head
  pub foot_fits : IsFoot p.foot
  pub body_fits : IsBody p.body
  pub body_filled : is_heartbeat p ≡ false → IsFilled p.head p.body

-- What the receiver makes of `p` in the packet `q` that it uses again.
abbrev pub received : Packet → Packet → Packet
received q p = record {
  head = p.head;
  body = if is_heartbeat p then q.body else p.body;
  foot = p.foot;
  sid = Head.session_id p.head;
  fast_integrity = xor_loop 0 (image p) == 0;
}

module _ (p : Packet) (v : IsSendable p) (q : Packet) (before after : List ℕ) (size : ℕ) where
  -- The foot, behind everything else.
  read_foot_received :
      (w : Packet) (code : ℕ)
      → w.head ≡ p.head
      → code ≡ xor_loop 0 (Head.to_bytes p.head ++ payload p)
      → length before + 8 ≤ size
      → read_foot (before ++ (Foot.to_bytes p.foot ++ after)) size w (length before) code
        ≡ done (
          record w {
            foot = p.foot;
            fast_integrity = xor_loop 0 (image p) == 0;
            sid = Head.session_id p.head;
          },
          length before + 8,
        )
  unfolding read_foot Foot.xor
  read_foot_received w code same_head same room =
      rw
        (
          mem_read-foot w.foot p.foot before after (size - length before) v.foot_fits (omega arith),
          ◌>>=◌,
          total_xor (Head.to_bytes p.head) (payload p) (Foot.to_bytes p.foot) code same,
          same_head,
        )
        refl

module _ (p : Packet) (v : IsSendable p) (q : Packet) (before after : List ℕ) (size : ℕ) where
  -- The body of `p`, behind everything before it.
  body_received :
      (old : BodyStruct)
      → is_heartbeat p ≡ false
      → length before + length (block_of p.body) ≤ size
      → (r : List ℕ)
      → Body.mem_read old
          (before ++ (block_of p.body ++ r))
          (length before)
          (size - length before)
          (signed32 p.head.size)
        ≡ done (true, p.body)
  unfolding Body.mem_read
  body_received old hb room r =
      let f = v.body_filled hb in
      let e : p.head.size ≡ length (block_of p.body) = f.same_size ∙ f.same_length in
      let small = f.not_negative in
      let signed : signed32 p.head.size ≡ pos (length (block_of p.body)) =
        rw (let t : ltb p.head.size (2 ^ 31) ≡ true = ground arith in t) (ap pos e) in
      let fits : ltb (size - length before) (length (block_of p.body)) ≡ false = ground arith in
      rw (signed, fits, read_middle before (block_of p.body) r, ◌>>=◌)
        (λ i. done (true, record { buffer_ptr = sym f.owned i; length = sym f.same_length i }))

  read_heartbeat_received :
      is_heartbeat p ≡ true
      → length before + 8 ≤ size
      → read_rest
          (before ++ (Foot.to_bytes p.foot ++ after))
          size
          (record q { head = p.head })
          (length before)
        ≡ done (received q p, length before + 8)
  unfolding read_rest
  read_heartbeat_received hb room =
      rw
        (
          hb,
          zero-bit_xor (Head.xor p.head),
          read_foot_received p v q before after size
              (record q { head = p.head; sid = Head.session_id p.head }) (Head.xor p.head) refl
              (unfold Head.xor in rw hb (ap (xor_loop 0) (sym (append-nil (Head.to_bytes p.head)))))
              room,
          hb,
        )
        refl

  read_body_received :
      is_heartbeat p ≡ false
      → length before + length (block_of p.body) + 8 ≤ size
      → read_rest
          (before ++ (block_of p.body ++ (Foot.to_bytes p.foot ++ after)))
          size
          (record q { head = p.head })
          (length before)
        ≡ done (received q p, length before + length (block_of p.body) + 8)
  unfolding read_rest
  read_body_received hb room =
      let f = v.body_filled hb in
      let block = block_of p.body in
      let xored : Body.xor p.body ≡ done (xor_loop 0 block) =
        unfold Body.xor in rw (deref-block p.body.buffer_ptr p.body.length f.same_length) in
      let index : length before + p.body.length ≡ length (before ++ block) =
        omega (arith, f.same_length, length-append before block) in
      let code : bit_xor (Head.xor p.head) (xor_loop 0 block)
          ≡ xor_loop 0 (Head.to_bytes p.head ++ payload p) =
        unfold Head.xor in rw hb (sym (xor_loop-append (Head.to_bytes p.head) block)) in
      rw
        (
          hb,
          zero-bit_xor (Head.xor p.head),
          body_received q.body hb (omega arith) (Foot.to_bytes p.foot ++ after),
          ◌>>=◌,
          xored,
          ◌>>=◌,
          index,
          ← append_assoc before block (Foot.to_bytes p.foot ++ after),
          read_foot_received p v q (before ++ block) after size
              (record q { head = p.head; body = p.body })
              (bit_xor (Head.xor p.head) (xor_loop 0 block)) refl code
              (omega (arith, length-append before block)),
          hb,
          length-append before block,
        )
        refl

  pub rest_received :
      length before + length (payload p) + 8 ≤ size
      → read_rest
          (before ++ (payload p ++ (Foot.to_bytes p.foot ++ after)))
          size
          (record q { head = p.head })
          (length before)
        ≡ done (received q p, length before + length (payload p) + 8)
  rest_received room = elim (Bool-cases (is_heartbeat p)) [
    | inr hb ↦ rw hb (rw hb at (read_body_received hb (rw hb at room)))
    | inl hb ↦
        let room' : length before + 0 + 8 ≤ size = rw hb at room in
        let e : length before + 8 ≡ length before + 0 + 8 = omega arith in
        rw (hb, ← e) (rw hb at (read_heartbeat_received hb (omega arith)))
  ]
