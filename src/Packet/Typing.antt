-- ===== src/Packet/Typing.antt =====
-- The fields of a packet stay in the ranges of their types.
use septem_cpp.Common.{
  ℕ, ◌+◌, ◌-◌, ◌^◌, ◌≤◌, ◌<◌, ◌≡◌, refl, sym, inl, inr, List, false, Bool-cases, length, some,
  Access, done, ◌>>=◌, IsBytes, bit_xor, ◌==◌, arith,
}
use septem_cpp.Common.Int.{ℤ, pos, negsuc, signed32}
use septem_cpp.Buffer.Syncword.{buffer_buffer_syncword-IsFirst}
use septem_cpp.Wire.Head
use septem_cpp.Wire.Head.{Head as HeadStruct}
use septem_cpp.Wire.Body
use septem_cpp.Wire.Body.{Body as BodyStruct}
use septem_cpp.Wire.Foot
use septem_cpp.Wire.Foot.{Timespec}
use septem_cpp.Wire.Xor.{xor_loop}
use septem_cpp.Wire.Image.{IsHead, IsFoot}
use septem_cpp.Wire.Slice.{slice, length-slice, IsBytes-slice, body-mem_read}
use septem_cpp.Wire.Ranges.{session_id-lt, mem_read-IsHead, mem_read-IsFoot}
use septem_cpp.Packet.{
  Packet, init, is_heartbeat, read_foot, read_body, read_rest, read_head, read_packet, reuse,
  reuse_head,
}
use septem_cpp.Packet.Write.{block_of, deref-block, IsBody}

-- `int32 length` is that of the block, whose elements are bytes, and a session id has 22 bits.
pub record IsTyped (p : Packet) : Type 0 where
  pub head_typed : IsHead p.head
  pub foot_typed : IsFoot p.foot
  pub body_owned : IsBody p.body
  pub body_bytes : IsBytes (block_of p.body)
  pub body_small : p.body.length < 2 ^ 31
  pub sid_small : p.sid < 2 ^ 22

pub init-IsTyped : IsTyped init
init-IsTyped = record {
  head_typed = record {
    syncword_fits = omega arith;
    version_fits = omega arith;
    fastcode_fits = omega arith;
    uid_fits = omega arith;
    size_fits = omega arith;
    reserved_fits = omega arith;
  };
  foot_typed = omega arith;
  body_owned = refl;
  body_bytes = tt;
  body_small = omega arith;
  sid_small = omega arith;
}

pub with_head :
    (p : Packet) (d : HeadStruct) → IsTyped p → IsHead d → IsTyped (record p { head = d })
with_head p d v k = record {
  head_typed = k;
  foot_typed = v.foot_typed;
  body_owned = v.body_owned;
  body_bytes = v.body_bytes;
  body_small = v.body_small;
  sid_small = v.sid_small;
}

-- The call returns a packet whose fields are in range.
abbrev Reads : Access (Packet × ℕ) → Type 0
Reads m = (q : Packet) × (n : ℕ) × (m ≡ done (q, n)) × IsTyped q

module _ (bs : List ℕ) (h : IsBytes bs) (size : ℕ) (held : size ≤ length bs)
    (small : size < 2 ^ 31) where
  read_foot-Reads :
      (p : Packet) (index code : ℕ) → IsTyped p → Reads (read_foot bs size p index code)
  unfolding read_foot
  read_foot-Reads p index code v =
      let (ok, foot, e, f) = mem_read-IsFoot bs h size held p.foot index v.foot_typed in
      elim (Bool-cases ok) [
        | inl t ↦ (
          record p {
            foot = foot;
            fast_integrity = bit_xor code (Foot.xor foot) == 0;
            sid = Head.session_id p.head;
          },
          index + 8,
          rw (e, ◌>>=◌, t) refl,
          record {
            head_typed = v.head_typed;
            foot_typed = f;
            body_owned = v.body_owned;
            body_bytes = v.body_bytes;
            body_small = v.body_small;
            sid_small = session_id-lt p.head;
          },
        )
        | inr t ↦ (p, size, rw (e, ◌>>=◌, t) refl, v)
      ]

  read_body-Reads :
      (p : Packet) (index code : ℕ)
      → IsTyped p
      → index ≤ size
      → Reads (read_body bs size p index code)
  unfolding read_body Body.xor
  read_body-Reads p index code v room =
      elim (body-mem_read bs h index (size - index) (omega arith) p.body (signed32 p.head.size)) [
        | inl short ↦ (p, size, rw (short, ◌>>=◌) refl, v)
        | inr (n, len, fits, reads) ↦
            let block = slice bs index n in
            let l : n ≡ length block = sym (length-slice bs index n (omega arith)) in
            let body : BodyStruct = record { buffer_ptr = some block; length = n } in
            let w : IsTyped (record p { body = body }) = record {
              head_typed = v.head_typed;
              foot_typed = v.foot_typed;
              body_owned = l;
              body_bytes = IsBytes-slice bs index n h;
              body_small = omega arith;
              sid_small = v.sid_small;
            } in
            rw (reads, ◌>>=◌, deref-block (some block) n l, ◌>>=◌)
              (read_foot-Reads (record p { body = body }) (index + n)
                (bit_xor code (xor_loop 0 block)) w)
      ]

  read_rest-Reads :
      (p : Packet) (index : ℕ) → IsTyped p → index ≤ size → Reads (read_rest bs size p index)
  unfolding read_rest
  read_rest-Reads p index v room =
      let code = bit_xor 0 (Head.xor p.head) in
      let w : IsTyped (record p { sid = Head.session_id p.head }) = record {
        head_typed = v.head_typed;
        foot_typed = v.foot_typed;
        body_owned = v.body_owned;
        body_bytes = v.body_bytes;
        body_small = v.body_small;
        sid_small = session_id-lt p.head;
      } in
      elim (Bool-cases (is_heartbeat p)) [
        | inl hb ↦ rw hb (read_foot-Reads (record p { sid = Head.session_id p.head }) index code w)
        | inr hb ↦ rw hb (read_body-Reads p index code v room)
      ]

  read_head-Reads : (p : Packet) (index : ℕ) → IsTyped p → Reads (read_head bs size p index)
  unfolding read_head
  read_head-Reads p index v =
      let (ok, head, e, f, room) = mem_read-IsHead bs h size held p.head index v.head_typed in
      elim (Bool-cases ok) [
        | inl t ↦
            rw (e, ◌>>=◌, t)
              (read_rest-Reads (record p { head = head }) (index + 16) (with_head p head v f)
                (room t))
        | inr t ↦ (p, size, rw (e, ◌>>=◌, t) refl, v)
      ]

  read_packet-Reads : (p : Packet) → IsTyped p → Reads (read_packet bs size p)
  unfolding read_packet
  read_packet-Reads p v =
      let (r, search, found) = buffer_buffer_syncword-IsFirst bs size p.head.syncword held in
      rw (search, ◌>>=◌) (at r)
    where
      at : (r : ℤ) → Reads (elim r [ pos i ↦ read_head bs size p i | negsuc n ↦ done (p, size) ])
      at (pos i) = read_head-Reads p i v
      at (negsuc n) = (p, size, refl, v)

  pub reuse-Reads :
      (p : Packet) (syncword : ℕ) → syncword < 2 ^ 32 → IsTyped p → Reads (reuse bs size p syncword)
  unfolding reuse
  reuse-Reads p syncword fits v =
      let d = v.head_typed in
      read_packet-Reads
        (record p {
          sid = 0;
          fast_integrity = false;
          head = record (p.head) { syncword = syncword };
        })
        (record {
          head_typed = record {
            syncword_fits = fits;
            version_fits = d.version_fits;
            fastcode_fits = d.fastcode_fits;
            uid_fits = d.uid_fits;
            size_fits = d.size_fits;
            reserved_fits = d.reserved_fits;
          };
          foot_typed = v.foot_typed;
          body_owned = v.body_owned;
          body_bytes = v.body_bytes;
          body_small = v.body_small;
          sid_small = omega arith;
        })

  pub reuse_head-Reads :
      (p : Packet) (head : HeadStruct) → IsHead head → IsTyped p → Reads (reuse_head bs size p head)
  unfolding reuse_head
  reuse_head-Reads p head k v =
      read_rest-Reads (record p { sid = 0; fast_integrity = false; head = head }) 0
        (record {
          head_typed = k;
          foot_typed = v.foot_typed;
          body_owned = v.body_owned;
          body_bytes = v.body_bytes;
          body_small = v.body_small;
          sid_small = omega arith;
        })
        (omega arith)
