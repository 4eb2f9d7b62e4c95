-- ===== src/Packet/Write.antt =====
-- `WriteToArray` lays the parts of a packet out one behind the other.
use septem_cpp.Common.{
  ℕ, zero, suc, ◌+◌, ◌-◌, ◌≤◌, ◌≡◌, inl, inr, refl, sym, ap, ◌∙◌, List, [], ◌∷◌, ◌++◌, append-nil,
  append_assoc, true, false, if◌then◌else◌, Bool-cases, length, take, drop, replicate,
  length-append, length-drop, drop_all, length-take, length-replicate, Option, none, some, done,
  ◌>>=◌, write, write_next, read_all, arith,
}
use septem_cpp.Wire.Head
use septem_cpp.Wire.Body
use septem_cpp.Wire.Foot
use septem_cpp.Wire.Body.{Body as BodyStruct}
use septem_cpp.Wire.Image.{length-head, length-foot}
use septem_cpp.Packet.{Packet, is_heartbeat, resize, write_to_array}

abbrev pub pointee : Option (List ℕ) → List ℕ
pointee none = []
pointee (some block) = block

-- The bytes of a body whose pointer and length agree.
abbrev pub block_of : BodyStruct → List ℕ
block_of b = pointee b.buffer_ptr

-- `length` is that of the block, and 0 where there is none.
abbrev pub IsBody : BodyStruct → Type 0
IsBody b = b.length ≡ length (block_of b)

-- The bytes of a packet on the wire.
abbrev pub payload : Packet → List ℕ
payload p = if is_heartbeat p then [] else block_of p.body

abbrev pub image : Packet → List ℕ
image p = Head.to_bytes p.head ++ (payload p ++ Foot.to_bytes p.foot)

pub deref-block :
    (ptr : Option (List ℕ)) (n : ℕ)
    → n ≡ length (pointee ptr)
    → Body.deref ptr n ≡ done (pointee ptr)
unfolding Body.deref
deref-block none zero e = refl
deref-block none (suc n) e = absurd (omega arith)
deref-block (some []) zero e = refl
deref-block (some (b ∷ bs)) zero e = absurd (omega arith)
deref-block (some block) (suc n) e = rw e (read_all block)

pub length-resize : (v : List ℕ) (n : ℕ) → length (resize v n) ≡ n
unfolding resize
length-resize v n = omega (
  arith,
  length-append (take n v) (replicate (n - length v) 0),
  length-take n v,
  length-replicate {A = ℕ} (n - length v) 0,
)

-- A write behind the first `off` bytes.
pub write_behind :
    (g r src : List ℕ) (off : ℕ)
    → off ≡ length g
    → length src ≤ length r
    → write (g ++ r) off src ≡ done (g ++ (src ++ drop (length src) r))
write_behind g r src off e h = rw e (write_next g src r h)

pub write_last :
    (g r src : List ℕ) (off : ℕ)
    → off ≡ length g
    → length src ≡ length r
    → write (g ++ r) off src ≡ done (g ++ src)
write_last g r src off e h =
    write_behind g r src off e (omega arith)
    ∙ ap (λ l. done (g ++ (src ++ l))) (drop_all (length src) r (omega arith))
    ∙ ap (λ l. done (g ++ l)) (append-nil src)

module _ (p : Packet) (in_buffer_arr : List ℕ) where
  write_heartbeat :
      is_heartbeat p ≡ true
      → write_to_array p in_buffer_arr ≡ done (Head.to_bytes p.head ++ Foot.to_bytes p.foot)
  unfolding write_to_array
  write_heartbeat hb =
      let z = resize in_buffer_arr 24 in
      let lz = length-resize in_buffer_arr 24 in
      let lh = length-head p.head in
      let lf = length-foot p.foot in
      rw
        (
          hb,
          write_behind [] z (Head.to_bytes p.head) 0 refl (omega arith),
          ◌>>=◌,
          write_last (Head.to_bytes p.head) (drop (length (Head.to_bytes p.head)) z)
              (Foot.to_bytes p.foot) 16 (sym lh)
              (omega (arith, length-drop (length (Head.to_bytes p.head)) z)),
        )
        refl

  write_body :
      is_heartbeat p ≡ false
      → IsBody p.body
      → write_to_array p in_buffer_arr
        ≡ done ((Head.to_bytes p.head ++ block_of p.body) ++ Foot.to_bytes p.foot)
  unfolding write_to_array
  write_body hb v =
      let h = Head.to_bytes p.head in
      let b = block_of p.body in
      let z = resize in_buffer_arr (24 + p.body.length) in
      let lz = length-resize in_buffer_arr (24 + p.body.length) in
      let lh = length-head p.head in
      let lf = length-foot p.foot in
      let rest = drop (length b) (drop (length h) z) in
      let l1 = length-drop (length h) z in
      let l2 = length-drop (length b) (drop (length h) z) in
      rw
        (
          hb,
          write_behind [] z h 0 refl (omega arith),
          ◌>>=◌,
          deref-block p.body.buffer_ptr p.body.length v,
          ◌>>=◌,
          write_behind h (drop (length h) z) b 16 (sym lh) (omega arith),
          ◌>>=◌,
          ← append_assoc h b rest,
          write_last (h ++ b) rest (Foot.to_bytes p.foot) (16 + p.body.length)
              (omega (arith, length-append h b)) (omega arith),
        )
        refl

-- For a packet whose body's pointer and length agree, `WriteToArray` writes nothing out of range and
-- leaves the array, whatever it held, with the image of the head, the bytes of the body unless the
-- packet is a heartbeat, and the image of the foot, and with nothing else.
pub write_to_array-image :
    (p : Packet) (in_buffer_arr : List ℕ)
    → IsBody p.body
    → write_to_array p in_buffer_arr ≡ done (image p)
write_to_array-image p arr v = elim (Bool-cases (is_heartbeat p)) [
  | inl hb ↦ rw hb (write_heartbeat p arr hb)
  | inr hb ↦ rw hb (
      write_body p arr hb v
      ∙ ap done (append_assoc (Head.to_bytes p.head) (block_of p.body) (Foot.to_bytes p.foot)))
]
