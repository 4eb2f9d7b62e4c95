-- ===== src/StaticProtocol/Receive.antt =====
-- The steps of `OnReceivedPacket`: the body and the foot behind the head, and the two ways on.
use septem_cpp.Common.{
  ℕ, ◌+◌, ◌≤◌, ◌≡◌, refl, ap, ◌∙◌, inl, inr, List, [], ◌∷◌, ◌++◌, true, false, ◌==◌, Bool-cases,
  Option, some, length, get_elem?, get-done_of, done, ◌>>=◌, arith,
}
use septem_cpp.Common.Int.{add_ℕ}
use septem_cpp.Wire.Head.{Head as HeadStruct}
use septem_cpp.Wire.Foot
use septem_cpp.Wire.Xor.{xor_loop}
use septem_cpp.Pool.Recycle
use septem_cpp.Pool.Protocol.{queue_push}
use septem_cpp.Pool.Stack.{PacketPool, queue_of, stack_of, pool_push, stack_push}
use septem_cpp.StaticPacket.{
  BodyClass, StaticPacket, static_is_valid, static_read_rest, static_reuse_head, static_on_dealloc,
}
use septem_cpp.StaticPacket.Write.{static_payload, static_image, IsStaticSendable, static_received}
use septem_cpp.StaticPacket.Receive.{static_rest_received}
use septem_cpp.StaticProtocol.{
  StaticProtocol, Engine, IsEngine, static_alloc, static_store, static_push, static_dealloc,
  on_received_packet,
}

-- The pool with one more pointer: at the end of a queue, on top of a stack.
abbrev pub added : Option ℕ → PacketPool → PacketPool
added x (queue_of q) = queue_of (q ++ x ∷ [])
added x (stack_of s) = stack_of (x ∷ s)

pub pool_push-added : (x : Option ℕ) (q : PacketPool) → pool_push x q ≡ (true, added x q)
unfolding pool_push queue_push stack_push
pool_push-added x (queue_of q) = refl
pool_push-added x (stack_of s) = refl

module _ {B : Type 0} where
  pub static_push-added :
      (x : Option ℕ) (p : StaticProtocol B)
      → static_push x p ≡ (
        true,
        record p {
          packet_pool = added x (p.packet_pool);
          packet_pool_count = add_ℕ (p.packet_pool_count) 1;
        },
      )
  unfolding static_push
  static_push-added x p = rw (pool_push-added x (p.packet_pool)) refl

module _ {B : Type 0} (c : BodyClass B) (s : StaticPacket B) (bytes after : List ℕ) (size : ℕ)
    (v : IsStaticSendable c s bytes) (room : length (static_payload s bytes) + 8 ≤ size) where
  -- What a receiver finds behind the head.
  abbrev pub behind_head : List ℕ
  behind_head = static_payload s bytes ++ (Foot.to_bytes s.foot ++ after)

  pub reuse_head_received :
      (x : StaticPacket B)
      → c.body_size (x.body) ≡ s.head.size
      → static_reuse_head c x (s.head) behind_head size
        ≡ done (static_received x s bytes, length (static_payload s bytes) + 8)
  unfolding static_reuse_head
  reuse_head_received x h =
      let same : (s.head.size == s.head.size) ≡ true = ground arith in
      let q : StaticPacket B = record x { sid = 0; fast_integrity = false } in
      let rest : static_read_rest c behind_head size size (record q { head = s.head }) 0
          ≡ done (static_received x s bytes, length (static_payload s bytes) + 8) =
        static_rest_received c s q bytes v [] after size size (omega arith)
        ∙ ap (λ n. done (static_received x s bytes, n)) (omega arith) in
      elim (Bool-cases (s.head.uid == 0)) [
        | inl u ↦ rw (static_reuse_head, u) (rw u at rest)
        | inr u ↦ rw (static_reuse_head, u, h, same) (rw u at rest)
      ]

  -- A receiver of fixed-size bodies finds a received packet valid exactly if its image has the
  -- exclusive or 0.
  pub received_validity :
      (x : StaticPacket B)
      → ((b : B) → c.body_size b ≡ s.head.size)
      → static_is_valid c (static_received x s bytes) ≡ (xor_loop 0 (static_image s bytes) == 0)
  unfolding static_is_valid
  received_validity x fixed =
      let same : (s.head.size == s.head.size) ≡ true = ground arith in
      let y = static_received x s bytes in rw (static_is_valid, fixed (y.body), same) (ground arith)

module _ {B : Type 0} (c : BodyClass B) (e : Engine B) (he : IsEngine e) where
  -- `DeallockNetPacket` of an object that was made.
  pub static_dealloc-done :
      (o : ℕ) (x : StaticPacket B) (p : StaticProtocol B)
      → get_elem? (p.recycle_pool.objects) o ≡ some x
      → static_dealloc c e (some o) false p
        ≡ done (
            let r = static_store c o (static_on_dealloc c x) p in
            record r { recycle_pool = Recycle.push o (r.recycle_pool) })
  unfolding static_dealloc Recycle.dealloc
  static_dealloc-done o x p ex =
      rw (he.object_valid o, get-done_of (p.recycle_pool.objects) o x ex, ◌>>=◌) refl

  module _ (head : HeadStruct) (buffer : List ℕ) (size : ℕ) (p : StaticProtocol B)
      (x y : StaticPacket B) (n : ℕ) where
    -- A packet that is valid waits in the pool.
    pub on_received_valid :
        let (o, q) = static_alloc c p in
        get_elem? (q.recycle_pool.objects) o ≡ some x
        → static_reuse_head c x head buffer size ≡ done (y, n)
        → static_is_valid c y ≡ true
        → on_received_packet c e head buffer size p
          ≡ done (
            n,
            record (static_store c o y q) {
              packet_pool = added (some o) (p.packet_pool);
              packet_pool_count = add_ℕ (p.packet_pool_count) 1;
            },
          )
    unfolding static_alloc on_received_packet
    on_received_valid ex reused ok =
        let (o, q) = static_alloc c p in
        rw
          (
            on_received_packet,
            get-done_of (q.recycle_pool.objects) o x ex,
            ◌>>=◌,
            reused,
            ◌>>=◌,
            ok,
            pool_push-added (some o) (p.packet_pool),
          )
          refl

    -- Any other goes back, reset.
    pub on_received_invalid :
        let (o, q) = static_alloc c p in
        let w = static_store c o y q in
        let u = static_store c o (static_on_dealloc c y) w in
        get_elem? (q.recycle_pool.objects) o ≡ some x
        → get_elem? (w.recycle_pool.objects) o ≡ some y
        → static_reuse_head c x head buffer size ≡ done (y, n)
        → static_is_valid c y ≡ false
        → on_received_packet c e head buffer size p
          ≡ done (n, record u { recycle_pool = Recycle.push o (u.recycle_pool) })
    unfolding static_alloc on_received_packet
    on_received_invalid ex ey reused bad =
        let (o, q) = static_alloc c p in
        rw
          (
            on_received_packet,
            get-done_of (q.recycle_pool.objects) o x ex,
            ◌>>=◌,
            reused,
            ◌>>=◌,
            bad,
            static_dealloc-done o y (static_store c o y q) ey,
            ◌>>=◌,
          )
          refl
