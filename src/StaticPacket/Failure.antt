-- ===== src/StaticPacket/Failure.antt =====
-- The constructor of `TSNetPacket` and `ReUse`, which differ in what `BytesRead` is on a failure.
use septem_cpp.Common.{
  ℕ, ◌+◌, ◌-◌, ◌≡◌, refl, ◌⊎◌, inl, inr, List, Bool, true, false, if◌then◌else◌, ◌==◌, bit_xor,
  drop, Access, fault, abort, out_of_fuel, done, ◌>>=◌, Bool-cases,
}
use septem_cpp.Common.Int.{ℤ, pos, negsuc}
use septem_cpp.Buffer.{buffer_buffer_syncword}
use septem_cpp.Wire.Head
use septem_cpp.Wire.Foot
use septem_cpp.Wire.Head.{Head as HeadStruct}
use septem_cpp.Wire.Foot.{Foot as FootStruct}
use septem_cpp.StaticPacket.{
  BodyClass, StaticPacket, init, static_read_foot, static_read_body, static_read_rest,
  static_read_head, static_read_packet, static_reuse,
}
use septem_cpp.StaticPacket.Create.{
  create_foot, create_body, create_rest, create_head, static_create,
}

-- What a failure of both leaves: the same parts, but not the flag.
pub record IsFailure {B : Type 0} (old_integrity : Bool) (p q : StaticPacket B) : Type 0 where
  pub same_head : p.head ≡ q.head
  pub same_body : p.body ≡ q.body
  pub same_foot : p.foot ≡ q.foot
  pub unset : p.fast_integrity ≡ old_integrity
  pub invalid : q.fast_integrity ≡ false

module _ {B : Type 0} (old : Bool) (m n : ℕ) where
  -- Two outcomes are the same, or they are failures, with `m` and `n` for `BytesRead`.
  abbrev pub IsSameBut : Access (StaticPacket B × ℕ) → Access (StaticPacket B × ℕ) → Type 0
  IsSameBut x y =
      ((p : StaticPacket B) × (q : StaticPacket B) × (x ≡ done (p, m))
        × (y ≡ done (q, n))
        × IsFailure old p q)
      ⊎ (x ≡ y)

  bind-IsSameBut :
      {A : Type 0} (x : Access A) (f g : A → Access (StaticPacket B × ℕ))
      → ((a : A) → IsSameBut (f a) (g a))
      → IsSameBut (x >>= f) (x >>= g)
  bind-IsSameBut (done a) f g h = h a
  bind-IsSameBut fault f g h = inr refl
  bind-IsSameBut abort f g h = inr refl
  bind-IsSameBut out_of_fuel f g h = inr refl

  if-IsSameBut :
      (b : Bool) (x y z w : Access (StaticPacket B × ℕ))
      → IsSameBut x y
      → IsSameBut z w
      → IsSameBut (if b then x else z) (if b then y else w)
  if-IsSameBut true x y z w h k = h
  if-IsSameBut false x y z w h k = k

  -- Packets with the same parts.
  abbrev packet_of : HeadStruct → B → FootStruct → ℕ → Bool → StaticPacket B
  packet_of head body foot sid flag = record {
    head = head;
    body = body;
    foot = foot;
    sid = sid;
    fast_integrity = flag;
  }

  failures :
      (head : HeadStruct) (body : B) (foot : FootStruct) (s t : ℕ)
      → IsSameBut
          (done (packet_of head body foot s old, m))
          (done (packet_of head body foot t false, n))
  failures head body foot s t = inl (
    packet_of head body foot s old,
    packet_of head body foot t false,
    refl,
    refl,
    record { same_head = refl; same_body = refl; same_foot = refl; unset = refl; invalid = refl },
  )

module _ {B : Type 0} (c : BodyClass B) (data_ptr : List ℕ) (size : ℕ) (old : Bool) where
  abbrev packet : HeadStruct → B → FootStruct → ℕ → Bool → StaticPacket B
  packet = packet_of old (size + 1) size

  -- The constructor on the left, `ReUse` on the right.
  abbrev Same : Access (StaticPacket B × ℕ) → Access (StaticPacket B × ℕ) → Type 0
  Same = IsSameBut old (size + 1) size

  failed :
      (head : HeadStruct) (body : B) (foot : FootStruct) (s t : ℕ)
      → Same
          (done (packet head body foot s old, size + 1))
          (done (packet head body foot t false, size))
  failed = failures old (size + 1) size

  foot-IsSameBut :
      (head : HeadStruct) (body : B) (foot : FootStruct) (s t i x : ℕ)
      → Same
          (create_foot c data_ptr size (packet head body foot s old) i x)
          (static_read_foot c data_ptr size size (packet head body foot t false) i x)
  unfolding create_foot static_read_foot
  foot-IsSameBut head body foot s t i x =
      bind-IsSameBut old (size + 1) size (Foot.mem_read foot data_ptr i (size - i)) _ _
        (λ (ok, read).
          if-IsSameBut old (size + 1) size ok _ _ _ _ (inr refl) (failed head body read s t))

  rest-IsSameBut :
      (head : HeadStruct) (body : B) (foot : FootStruct) (s t i : ℕ)
      → Same
          (create_rest c data_ptr size (packet head body foot s old) i)
          (static_read_rest c data_ptr size size (packet head body foot t false) i)
  unfolding create_rest create_body static_read_rest static_read_body
  rest-IsSameBut head body foot s t i =
      let (ok, read) = c.deserialize body (drop i data_ptr) (size - i) in
      let x = bit_xor 0 (Head.xor head) in
      elim (Bool-cases (head.uid == 0)) [
        | inl u ↦
            rw (create_rest, create_body, static_read_rest, u)
              (foot-IsSameBut head body foot (Head.session_id head) (Head.session_id head) i x)
        | inr u ↦ elim (Bool-cases ok) [
          | inl h ↦
              rw (create_rest, create_body, static_read_rest, static_read_body, u, h)
                (foot-IsSameBut head read foot s t (i + c.body_size read)
                  (bit_xor x (c.xor_body read)))
          | inr h ↦
              rw (create_rest, create_body, static_read_rest, static_read_body, u, h)
                (failed head read foot s t)
        ]
      ]

  head-IsSameBut :
      (head : HeadStruct) (body : B) (foot : FootStruct) (s t i : ℕ)
      → Same
          (create_head c data_ptr size (packet head body foot s old) i)
          (static_read_head c data_ptr size size (packet head body foot t false) i)
  unfolding create_head static_read_head
  head-IsSameBut head body foot s t i =
      bind-IsSameBut old (size + 1) size (Head.mem_read head data_ptr i (size - i)) _ _
        (λ (ok, read).
          if-IsSameBut old (size + 1) size ok _ _ _ _
            (rest-IsSameBut read body foot s t (i + Head.mem_size)) (failed read body foot s t))

-- For every class of bodies and whatever its memory held, the constructor of a static packet
-- from a buffer and ReUse of a new packet come to the same, except on a failure: then BytesRead
-- is BufferSize + 1 for the constructor and BufferSize for ReUse, head, body and foot are the
-- same, the packet of ReUse is not valid, and the flag of the constructed one is what its memory
-- held.
pub static_create-IsSameBut :
    {B : Type 0} (c : BodyClass B) (data_ptr : List ℕ) (size syncword old_sid : ℕ) (old : Bool)
    → IsSameBut old
        (size + 1)
        size
        (static_create c old_sid old data_ptr size syncword)
        (static_reuse c (init c) data_ptr size syncword)
unfolding static_create static_reuse static_read_packet
static_create-IsSameBut c data_ptr size syncword old_sid old =
    bind-IsSameBut old (size + 1) size (buffer_buffer_syncword data_ptr size syncword) _ _
      (λ index. at index)
  where
    head : HeadStruct
    head = record (Head.init) { syncword = syncword }

    at :
        (index : ℤ)
        → IsSameBut old
            (size + 1)
            size
            (elim index [
              | pos i ↦
                  create_head c data_ptr size
                    (packet_of old (size + 1) size head (c.initial) Foot.init old_sid old)
                    i
              | negsuc k ↦
                  done
                    (packet_of old (size + 1) size head (c.initial) Foot.init old_sid old, size + 1)
            ])
            (elim index [
              | pos i ↦
                  static_read_head c data_ptr size size
                    (packet_of old (size + 1) size head (c.initial) Foot.init 0 false)
                    i
              | negsuc k ↦
                  done (packet_of old (size + 1) size head (c.initial) Foot.init 0 false, size)
            ])
    at (negsuc k) = failures old (size + 1) size head (c.initial) Foot.init old_sid 0
    at (pos i) = head-IsSameBut c data_ptr size old head (c.initial) Foot.init old_sid 0 i
