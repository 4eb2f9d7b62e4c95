-- ===== src/StaticProtocol/Outcome.antt =====
-- What `OnReceivedPacket` makes of a packet that was sent, behind its head.
use septem_cpp.Common.{
  ℕ, set, ◌+◌, ◌≤◌, ◌≡◌, ◌≢◌, refl, ◌∙◌, ◌⊎◌, inl, inr, List, [], ◌∷◌, ◌++◌, ◌==◌, Bool-cases, some,
  length, get_elem?, get_elem?_in, get_elem?-set_self, length-set, done, arith,
}
use septem_cpp.Common.Int.{add_ℕ}
use septem_cpp.Wire.Foot
use septem_cpp.Wire.Xor.{xor_loop}
use septem_cpp.Pool.Recycle
use septem_cpp.Pool.Ownership.{Run, allocated, written, returned, occurrences, alloc-IsFree}
use septem_cpp.StaticPacket.{BodyClass, StaticPacket, init, static_on_dealloc}
use septem_cpp.StaticPacket.Write.{static_payload, static_image, IsStaticSendable, static_received}
use septem_cpp.StaticProtocol.{
  StaticProtocol, Engine, IsEngine, static_store, static_alloc, on_received_packet,
}
use septem_cpp.StaticProtocol.Receive.{
  added, reuse_head_received, received_validity, on_received_valid, on_received_invalid,
}

module _ {B : Type 0} (c : BodyClass B) (e : Engine B) (s : StaticPacket B) (bytes after : List ℕ)
    (size : ℕ) (p : StaticProtocol B) (held : List ℕ) where
  -- The object `o` holds the packet of the sender and waits in the pool.
  pub record Accepted (o : ℕ) (q : StaticProtocol B) : Type 0 where
    pub sealed : xor_loop 0 (static_image s bytes) ≡ 0
    pub pool_eq : q.packet_pool ≡ added (some o) (p.packet_pool)
    pub count_eq : q.packet_pool_count ≡ add_ℕ (p.packet_pool_count) 1
    pub old : StaticPacket B
    pub object_eq : get_elem? (q.recycle_pool.objects) o ≡ some (static_received old s bytes)
    pub stack_eq : q.recycle_pool.stack ≡ (static_alloc c p).1.recycle_pool.stack
    pub made_eq :
        length (q.recycle_pool.objects) ≡ length ((static_alloc c p).1.recycle_pool.objects)
    pub used : Run (init c) (q.recycle_pool) (o ∷ held)

  -- The object `o` goes back to the recycle pool, without a valid packet.
  pub record Refused (o : ℕ) (q : StaticProtocol B) : Type 0 where
    pub broken : xor_loop 0 (static_image s bytes) ≢ 0
    pub pool_eq : q.packet_pool ≡ p.packet_pool
    pub count_eq : q.packet_pool_count ≡ p.packet_pool_count
    pub stack_eq : q.recycle_pool.stack ≡ o ∷ (static_alloc c p).1.recycle_pool.stack
    pub old : StaticPacket B
    pub object_eq : get_elem? (q.recycle_pool.objects) o ≡ some (static_on_dealloc c old)
    pub used : Run (init c) (q.recycle_pool) held

  -- What `OnReceivedPacket` comes to: an object that no client holds, and what becomes of it.
  pub record ReceiveOutcome : Type 0 where
    pub o : ℕ
    pub q : StaticProtocol B
    pub received :
        on_received_packet c e
          (s.head)
          (static_payload s bytes ++ (Foot.to_bytes s.foot ++ after))
          size
          p
        ≡ done (length (static_payload s bytes) + 8, q)
    pub free : occurrences o held ≡ 0
    pub fate : Accepted o q ⊎ Refused o q

module _ {B : Type 0} (c : BodyClass B) (e : Engine B) (he : IsEngine e) where
  module _ (s : StaticPacket B) (bytes after : List ℕ) (size : ℕ) (p : StaticProtocol B)
      (held : List ℕ) where
    pub on_received_outcome :
        IsStaticSendable c s bytes
        → ((b : B) → c.body_size b ≡ s.head.size)
        → length (static_payload s bytes) + 8 ≤ size
        → Run (init c) (p.recycle_pool) held
        → ReceiveOutcome c e s bytes after size p held
    unfolding static_alloc Recycle.dealloc
    on_received_outcome v fixed room r =
        let (o, q) = static_alloc c p in
        let (free, out_of_pool, lt) = alloc-IsFree (init c) (p.recycle_pool) held r in
        let objects = q.recycle_pool.objects in
        let (x, ex) = get_elem?_in objects o lt in
        let y = static_received x s bytes in
        let n = length (static_payload s bytes) + 8 in
        let w = static_store c o y q in
        let received_run : Run (init c) (w.recycle_pool) (o ∷ held) =
          written o y (q.recycle_pool) (o ∷ held) (allocated (p.recycle_pool) held r) in
        let buffer = static_payload s bytes ++ (Foot.to_bytes s.foot ++ after) in
        let lw = length-set objects o y in
        let ey = get_elem?-set_self objects o y lt in
        let reused = reuse_head_received c s bytes after size v room x (fixed (x.body)) in
        let valid = received_validity c s bytes after size v room x fixed in
        elim (Bool-cases (xor_loop 0 (static_image s bytes) == 0)) [
          | inl h ↦ record {
            o = o;
            q = _;
            received = on_received_valid c e he (s.head) buffer size p x y n ex reused (valid ∙ h);
            free = free;
            fate = inl (record {
              sealed = ground arith;
              pool_eq = refl;
              count_eq = refl;
              old = x;
              object_eq = ey;
              stack_eq = refl;
              made_eq = lw;
              used = received_run;
            });
          }
          | inr h ↦ record {
            o = o;
            q = _;
            received =
                on_received_invalid c e he (s.head) buffer size p x y n ex ey reused (valid ∙ h);
            free = free;
            fate = inr (record {
              broken = ground arith;
              pool_eq = refl;
              count_eq = refl;
              stack_eq = refl;
              old = y;
              object_eq =
                  get_elem?-set_self (set objects o y) o (static_on_dealloc c y)
                    (omega (arith, lt, lw));
              used =
                  returned o [] held _
                    (written o (static_on_dealloc c y) (w.recycle_pool) (o ∷ held) received_run);
            });
          }
        ]
