-- ===== src/StaticProtocol/Counts.antt =====
-- The count of `TServoProtocol` and the pointers in its pool: `Push`, `Pop` and `DeallockNetPacket`.
use septem_cpp.Common.{
  ℕ, suc, ◌+◌, ◌≡◌, refl, sym, ap, ◌∙◌, subst, inl, inr, List, [], ◌∷◌, Bool, true, false,
  if◌then◌else◌, Bool-cases, Option, none, some, length, length-append, get, done, bind-done, arith,
}
use septem_cpp.Common.Int.{ℤ, pos, add_ℕ}
use septem_cpp.Pool.Recycle
use septem_cpp.Pool.Recycle.{sub_ℕ, sub_ℕ-ge, lt-or-ge}
use septem_cpp.Pool.Protocol.{queue_pop}
use septem_cpp.Pool.Stack.{PacketPool, queue_of, stack_of, pool_pop, stack_pop, stack_is_empty}
use septem_cpp.StaticPacket.{BodyClass, StaticPacket, static_on_dealloc}
use septem_cpp.StaticProtocol.{
  StaticProtocol, Engine, static_store, static_push, static_pop, static_dealloc, dealloc_packet,
}
use septem_cpp.StaticProtocol.Receive.{added, static_push-added}
use septem_cpp.StaticProtocol.Delivery.{sub-add}

-- The pointers in a pool, and how many of them its constructor made.
abbrev pub pointers : PacketPool → List (Option ℕ)
pointers (queue_of q) = q
pointers (stack_of s) = s

abbrev pub initial_pointers : PacketPool → ℕ
initial_pointers (queue_of q) = 0
initial_pointers (stack_of s) = 1024

-- The count is the number of pointers less those of the constructor.
abbrev pub CountFits : PacketPool → ℤ → Type 0
CountFits pool count = count ≡ sub_ℕ (pos (length (pointers pool))) (initial_pointers pool)

add-sub : (n k : ℕ) → add_ℕ (sub_ℕ (pos n) k) 1 ≡ sub_ℕ (pos (n + 1)) k
unfolding add_ℕ
add-sub n k = ground arith

-- One pointer less, and one less in the count.
one_less : (n k : ℕ) (count : ℤ) → count ≡ sub_ℕ (pos (suc n)) k → sub_ℕ count 1 ≡ sub_ℕ (pos n) k
one_less n k count w =
    ap (λ z. sub_ℕ z 1) (w ∙ ap (λ m. sub_ℕ (pos m) k) (omega arith) ∙ sym (add-sub n k))
    ∙ sub-add (sub_ℕ (pos n) k)

added-CountFits :
    (x : Option ℕ) (pool : PacketPool) (count : ℤ)
    → CountFits pool count
    → CountFits (added x pool) (add_ℕ count 1)
added-CountFits x (queue_of q) count w =
    ap (λ z. add_ℕ z 1) w
    ∙ add-sub (length q) 0
    ∙ ap (λ n. sub_ℕ (pos n) 0) (sym (length-append q (x ∷ [])))
added-CountFits x (stack_of s) count w =
    ap (λ z. add_ℕ z 1) w ∙ add-sub (length s) 1024 ∙ ap (λ n. sub_ℕ (pos n) 1024) (omega arith)

module _ {B : Type 0} where
  abbrev pub IsCounted : StaticProtocol B → Type 0
  IsCounted p = CountFits (p.packet_pool) (p.packet_pool_count)

  -- The pool and its count were not touched.
  pub record SamePool (p q : StaticProtocol B) : Type 0 where
    pub pool_same : q.packet_pool ≡ p.packet_pool
    pub count_same : q.packet_pool_count ≡ p.packet_pool_count

  pub SamePool-IsCounted : (p q : StaticProtocol B) → SamePool p q → IsCounted p → IsCounted q
  SamePool-IsCounted p q h w =
      h.count_same
      ∙ w
      ∙ ap (λ r. sub_ℕ (pos (length (pointers r))) (initial_pointers r)) (sym (h.pool_same))

  pub push-IsCounted :
      (x : Option ℕ) (p : StaticProtocol B) → IsCounted p → IsCounted ((static_push x p).1)
  push-IsCounted x p w =
      subst (λ r. IsCounted (r.1)) (sym (static_push-added x p))
        (added-CountFits x (p.packet_pool) (p.packet_pool_count) w)

module _ {B : Type 0} (syncword : ℕ) (count : ℤ) (r : Recycle.RecyclePool (StaticPacket B)) where
  abbrev protocol_of : PacketPool → StaticProtocol B
  protocol_of pool = record {
    syncword = syncword;
    packet_pool = pool;
    packet_pool_count = count;
    recycle_pool = r;
  }

  popped-IsCounted :
      (out : Option ℕ) (pool : PacketPool) (a : Bool × Option ℕ × StaticProtocol B)
      → static_pop out (protocol_of pool) ≡ done a
      → CountFits pool count
      → IsCounted (a.2)
  unfolding static_pop pool_pop queue_pop stack_pop stack_is_empty
  popped-IsCounted out (queue_of []) a e w = absurd cc
  popped-IsCounted out (queue_of (x ∷ q)) a e w =
      let f : (true, out, record (protocol_of (queue_of q)) { packet_pool_count = sub_ℕ count 1 })
          ≡ a =
        cc in
      subst (λ z. IsCounted (z.2)) f (one_less (length q) 0 count w)
  popped-IsCounted out (stack_of []) a e w =
      let f : (false, out, protocol_of (stack_of [])) ≡ a = cc in subst (λ z. IsCounted (z.2)) f w
  popped-IsCounted out (stack_of (x ∷ s)) a e w =
      let f : (true, x, record (protocol_of (stack_of s)) { packet_pool_count = sub_ℕ count 1 })
          ≡ a =
        cc in
      subst (λ z. IsCounted (z.2)) f (one_less (length s) 1024 count w)

module _ {B : Type 0} where
  pub pop-IsCounted :
      (out : Option ℕ) (p : StaticProtocol B) (a : Bool × Option ℕ × StaticProtocol B)
      → static_pop out p ≡ done a
      → IsCounted p
      → IsCounted (a.2)
  pop-IsCounted out p a e w =
      popped-IsCounted (p.syncword) (p.packet_pool_count) (p.recycle_pool) out (p.packet_pool) a e w

module _ {B : Type 0} (c : BodyClass B) (e : Engine B) where
  -- The two calls of the recycle pool touch neither the packet pool nor its count.
  recycled-SamePool :
      (x : Option ℕ) (force_recycle : Bool) (p q : StaticProtocol B)
      → (if force_recycle
          then done (record p { recycle_pool = e.dealloc_force_recycle x (p.recycle_pool) })
          else done (record p { recycle_pool = Recycle.dealloc x (p.recycle_pool) }))
        ≡ done q
      → SamePool p q
  recycled-SamePool x true p q d =
      let g : record p { recycle_pool = e.dealloc_force_recycle x (p.recycle_pool) } ≡ q = cc in
      subst (SamePool p) g (record { pool_same = refl; count_same = refl })
  recycled-SamePool x false p q d =
      let g : record p { recycle_pool = Recycle.dealloc x (p.recycle_pool) } ≡ q = cc in
      subst (SamePool p) g (record { pool_same = refl; count_same = refl })

  object-SamePool :
      (x : Option ℕ) (p q : StaticProtocol B) → dealloc_packet c e x p ≡ done q → SamePool p q
  object-SamePool none p q d = absurd cc
  object-SamePool (some o) p q d =
      let (z, ez, es) =
        bind-done (get (p.recycle_pool.objects) o)
          (λ x. done (static_store c o (static_on_dealloc c x) p)) d in
      let g : static_store c o (static_on_dealloc c z) p ≡ q = cc in
      subst (SamePool p) g (record { pool_same = refl; count_same = refl })

  -- `DeallockNetPacket` does not touch the pool.
  pub dealloc-SamePool :
      (x : Option ℕ) (force_recycle : Bool) (p q : StaticProtocol B)
      → static_dealloc c e x force_recycle p ≡ done q
      → SamePool p q
  unfolding static_dealloc
  dealloc-SamePool x force_recycle p q d = elim (Bool-cases (e.is_valid_pointer x)) [
    | inr v ↦
        let d' : done p ≡ done q = rw (static_dealloc, v) at d in
        let g : p ≡ q = cc in subst (SamePool p) g (record { pool_same = refl; count_same = refl })
    | inl v ↦
        let (z, ez, es) =
          bind-done (dealloc_packet c e x p)
            (λ r.
              if force_recycle
              then done (record r { recycle_pool = e.dealloc_force_recycle x (r.recycle_pool) })
              else done (record r { recycle_pool = Recycle.dealloc x (r.recycle_pool) }))
            (rw (static_dealloc, v) at d) in
        let a = object-SamePool x p z ez in
        let b = recycled-SamePool x force_recycle z q es in
        record { pool_same = b.pool_same ∙ a.pool_same; count_same = b.count_same ∙ a.count_same }
  ]
