-- ===== src/StaticProtocol/Delivery.antt =====
-- A packet on its way from the factory through `OnReceivedPacket` to the caller of `PopWithRecycle`.
use septem_cpp.Common.{
  ℕ, zero, suc, ◌+◌, ◌≤◌, ◌<◌, ◌≡◌, ◌≢◌, refl, sym, ap, ◌∙◌, subst, inl, inr, List, [], Bool-cases,
  ◌∷◌, ◌++◌, true, false, ◌==◌, ltb, ◌-◌, some, length, get_elem?, get_elem?_in, get_elem?-set_ne,
  done, ◌>>=◌, arith,
}
use septem_cpp.Common.Int.{ℤ, pos, negsuc, add_ℕ}
use septem_cpp.Wire.Foot
use septem_cpp.Wire.Xor.{xor_loop}
use septem_cpp.Pool.Recycle
use septem_cpp.Pool.Recycle.{sub_ℕ, sub_ℕ-ge, lt-or-ge}
use septem_cpp.Pool.Ownership.{Run, written, returned, occurrences, alloc-IsOwned, Run-IsOwned}
use septem_cpp.Pool.Stack.{Stack, stack_of, pool_pop, stack_pop}
use septem_cpp.StaticPacket.{BodyClass, StaticPacket, init, static_on_dealloc}
use septem_cpp.StaticPacket.Write.{static_payload, static_image, IsStaticSendable, static_received}
use septem_cpp.StaticProtocol.{
  StaticProtocol, Engine, IsEngine, static_alloc, static_store, static_pop, static_pop_with_recycle,
  on_received_packet,
}
use septem_cpp.StaticProtocol.Receive.{added, static_dealloc-done}
use septem_cpp.StaticProtocol.Outcome.{Accepted, on_received_outcome}
use septem_cpp.Factory.{
  Delegate, Delegates, register_protocol_deserialize, call_protocol_deserialize,
}
use septem_cpp.Factory.Registry.{call-register}

module _ {B : Type 0} (c : BodyClass B) (e : Engine B) where
  -- The delegate that hands a packet to the protocol.
  abbrev pub receiver : Delegate (StaticProtocol B)
  receiver head buffer size read p =
      on_received_packet c e head buffer size p >>= λ r. done (pos (r.0), r.1)

zero_positive : (n : ℕ) → n ≡ 0 → 0 < n → ⊥
zero_positive n e h = omega arith

-- One more and one less.
pub sub-add : (n : ℤ) → sub_ℕ (add_ℕ n 1) 1 ≡ n
unfolding add_ℕ
sub-add (pos n) = sub_ℕ-ge (n + 1) 1 (omega arith) ∙ ap pos (omega arith)
sub-add (negsuc zero) = refl
sub-add (negsuc (suc n)) =
    let h : ltb (suc n) 1 ≡ false = ground arith in
    let k : suc n - 1 + 1 ≡ suc n = omega arith in rw (add_ℕ, h) (ap negsuc k)

-- What a client holds beside an object.
held_parts :
    (r : ℕ) (held : List ℕ)
    → 0 < occurrences r held
    → (l : List ℕ) × (m : List ℕ) × (held ≡ l ++ r ∷ m)
unfolding occurrences
held_parts r [] h = absurd (omega arith)
held_parts r (x ∷ xs) h = elim (Bool-cases (r == x)) [
  | inl e ↦ let k : x ≡ r = ground arith in ([], xs, ap (λ y. y ∷ xs) k)
  | inr e ↦
      let i : 0 < occurrences r xs = rw e at h in
      let (l, m, k) = held_parts r xs i in (x ∷ l, m, ap (λ ys. x ∷ ys) k)
]

-- An object that a client holds was made, and is no free one.
held_object :
    {T : Type 0} (new : T) (p : Recycle.RecyclePool T) (held : List ℕ) (r : ℕ)
    → Run new p held
    → 0 < occurrences r held
    → r < length ((Recycle.alloc new p).1.objects)
unfolding occurrences
held_object new p held r run h =
    let w = alloc-IsOwned new p held (Run-IsOwned new p held run) in
    elim (lt-or-ge r (length ((Recycle.alloc new p).1.objects))) [
      | inl k ↦ k
      | inr k ↦ let z = w.made r k in absurd (ground (arith, z, h))
    ]

module _ {B : Type 0} (c : BodyClass B) (e : Engine B) (he : IsEngine e) (s : StaticPacket B)
    (bytes after : List ℕ) (size : ℕ) (p : StaticProtocol B) (held : List ℕ) where
  -- What `PopWithRecycle` gives for the object `r` of the caller, right behind the packet in `o`.
  pub record Delivered (r : ℕ) (q : StaticProtocol B) : Type 0 where
    pub o : ℕ
    pub t : StaticProtocol B
    pub handed_out : static_pop_with_recycle c e (some r) q ≡ done (true, some o, t)
    pub old : StaticPacket B
    pub object_eq : get_elem? (t.recycle_pool.objects) o ≡ some (static_received old s bytes)
    pub fresh : occurrences o held ≡ 0
    pub pool_eq : t.packet_pool ≡ p.packet_pool
    pub count_eq : t.packet_pool_count ≡ p.packet_pool_count
    pub recycled : t.recycle_pool.stack ≡ r ∷ (static_alloc c p).1.recycle_pool.stack
    pub left : List ℕ
    pub right : List ℕ
    pub held_eq : held ≡ left ++ r ∷ right
    pub used : Run (init c) (t.recycle_pool) (o ∷ left ++ right)

  pop-Delivered :
      (o r : ℕ) (q : StaticProtocol B) (st : Stack)
      → p.packet_pool ≡ stack_of st
      → Accepted c e s bytes after size p held o q
      → occurrences o held ≡ 0
      → o ≢ r
      → r < length (q.recycle_pool.objects)
      → 0 < occurrences r held
      → Delivered r q
  unfolding static_pop_with_recycle static_pop pool_pop stack_pop Recycle.dealloc
  pop-Delivered o r q st mode a free ne made owned =
      let (x, ex) = get_elem?_in (q.recycle_pool.objects) r made in
      let waiting : q.packet_pool ≡ stack_of (some o ∷ st) = a.pool_eq ∙ ap (added (some o)) mode in
      let q' : StaticProtocol B = record q {
        packet_pool = stack_of st;
        packet_pool_count = sub_ℕ (q.packet_pool_count) 1;
      } in
      let u = static_store c r (static_on_dealloc c x) q' in
      let (left, right, split) = held_parts r held owned in
      record {
        o = o;
        t = record u { recycle_pool = Recycle.push r (u.recycle_pool) };
        handed_out =
            rw
              (
                static_pop_with_recycle,
                waiting,
                ◌>>=◌,
                static_dealloc-done c e he r x q' ex,
                ◌>>=◌,
                he.move_eq (some o),
              )
              refl;
        old = a.old;
        object_eq =
            get_elem?-set_ne (q.recycle_pool.objects) r o (static_on_dealloc c x) (λ h. ne (sym h))
            ∙ a.object_eq;
        fresh = free;
        pool_eq = sym mode;
        count_eq = ap (λ n. sub_ℕ n 1) (a.count_eq) ∙ sub-add (p.packet_pool_count);
        recycled = ap (λ l. r ∷ l) (a.stack_eq);
        left = left;
        right = right;
        held_eq = split;
        used = returned r (o ∷ left) right _ (
            written r (static_on_dealloc c x) (q.recycle_pool) (o ∷ left ++ r ∷ right)
              (subst (λ l. Run (init c) (q.recycle_pool) (o ∷ l)) split (a.used)));
      }

  -- What the client of the factory and the protocol sees.
  pub record DeliveryOutcome (m : Delegates (StaticProtocol B)) (read : ℤ) (r : ℕ) : Type 0 where
    pub q : StaticProtocol B
    pub received :
        call_protocol_deserialize m
          (s.head)
          (static_payload s bytes ++ (Foot.to_bytes s.foot ++ after))
          size
          read
          p
        ≡ done (pos (length (static_payload s bytes) + 8), q)
    pub delivered : Delivered r q

  -- In Stack mode, when OnReceivedPacket is registered for the uid of a sealed packet that its
  -- class serialises as it should, CallProtocolDeserialize and then PopWithRecycle with an
  -- object that the caller holds return an object that no client held, with the packet in it;
  -- the object of the caller is on top of the recycle pool, and the packet pool and its count
  -- are as before.
  pub call-pop_with_recycle :
      (m m' : Delegates (StaticProtocol B)) (read : ℤ) (r : ℕ) (st : Stack)
      → register_protocol_deserialize (pos (s.head.uid)) (some (receiver c e)) m ≡ (true, m')
      → p.packet_pool ≡ stack_of st
      → IsStaticSendable c s bytes
      → xor_loop 0 (static_image s bytes) ≡ 0
      → ((b : B) → c.body_size b ≡ s.head.size)
      → length (static_payload s bytes) + 8 ≤ size
      → Run (init c) (p.recycle_pool) held
      → 0 < occurrences r held
      → DeliveryOutcome m' read r
  unfolding static_alloc
  call-pop_with_recycle m m' read r st reg mode v sealed fixed room run owned =
      let w = on_received_outcome c e he s bytes after size p held v fixed room run in
      let buffer = static_payload s bytes ++ (Foot.to_bytes s.foot ++ after) in
      let same : (s.head.uid == s.head.uid) ≡ true = ground arith in
      record {
        q = w.q;
        received =
            rw
              (
                call-register (s.head.uid) (receiver c e) m m' (s.head) buffer size read p reg,
                same,
                w.received,
                ◌>>=◌,
              )
              refl;
        delivered = elim (w.fate) [
          | inr d ↦ absurd (d.broken sealed)
          | inl a ↦
              pop-Delivered (w.o) r (w.q) st mode a (w.free)
                (λ h.
                  let z = w.free in
                  zero_positive (occurrences r held) (subst (λ o. occurrences o held ≡ 0) h z)
                    owned)
                (let l = held_object (init c) (p.recycle_pool) held r run owned in
                  let k = a.made_eq in omega (arith, l, k))
                owned
        ];
      }
