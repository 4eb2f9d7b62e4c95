-- ===== src/StaticProtocol/Reach.antt =====
-- The members of `TServoProtocol` that change its pool keep the count right, so that every state that
-- they reach has the right count.
use septem_cpp.Common.{
  ℕ, ◌≡◌, refl, sym, ap, subst, inl, inr, List, Bool, true, false, if◌then◌else◌, Bool-cases,
  Option, none, some, length-replicate, get, Access, done, ◌>>=◌, bind-done,
}
use septem_cpp.Common.Int.{pos}
use septem_cpp.Wire.Head.{Head as HeadStruct}
use septem_cpp.Pool.Recycle.{sub_ℕ}
use septem_cpp.Pool.Stack.{stack_create}
use septem_cpp.StaticPacket.{BodyClass, StaticPacket, static_reuse_head, static_is_valid}
use septem_cpp.StaticProtocol.{
  StaticProtocol, Engine, Mode, stack_mode, queue_mode, heap_mode, static_protocol, create_pool,
  static_alloc, static_store, static_push, static_pop, static_dealloc, static_pop_with_recycle,
  on_received_packet,
}
use septem_cpp.StaticProtocol.Counts.{
  IsCounted, SamePool-IsCounted, push-IsCounted, pop-IsCounted, dealloc-SamePool,
}

module _ {B : Type 0} (c : BodyClass B) where
  pub create-IsCounted : (mode : Mode) → IsCounted (static_protocol c mode)
  unfolding static_protocol create_pool stack_create
  create-IsCounted stack_mode =
      sym (ap (λ n. sub_ℕ (pos n) 1024) (length-replicate {A = Option ℕ} 1024 none))
  create-IsCounted queue_mode = refl
  create-IsCounted heap_mode = refl

module _ {B : Type 0} (c : BodyClass B) (e : Engine B) where
  -- What `PopWithRecycle` does behind its `Pop`.
  abbrev behind_pop :
      Option ℕ → Bool × Option ℕ × StaticProtocol B → Access (Bool × Option ℕ × StaticProtocol B)
  behind_pop out (ok, x, q) =
      if ok
      then (static_dealloc c e out false q >>= λ s. done (true, e.move_temp x, s))
      else done (false, out, q)

  behind_pop-IsCounted :
      (out : Option ℕ) (ok : Bool) (x : Option ℕ) (q : StaticProtocol B)
      (a : Bool × Option ℕ × StaticProtocol B)
      → behind_pop out (ok, x, q) ≡ done a
      → IsCounted q
      → IsCounted (a.2)
  behind_pop-IsCounted out true x q a d w =
      let (s, es, ea) =
        bind-done (static_dealloc c e out false q) (λ s. done (true, e.move_temp x, s)) d in
      let g : (true, e.move_temp x, s) ≡ a = cc in
      subst (λ z. IsCounted (z.2)) g
        (SamePool-IsCounted q s (dealloc-SamePool c e out false q s es) w)
  behind_pop-IsCounted out false x q a d w =
      let g : (false, out, q) ≡ a = cc in subst (λ z. IsCounted (z.2)) g w

  exchange-IsCounted :
      (out : Option ℕ) (p : StaticProtocol B) (a : Bool × Option ℕ × StaticProtocol B)
      → static_pop_with_recycle c e out p ≡ done a
      → IsCounted p
      → IsCounted (a.2)
  unfolding static_pop_with_recycle
  exchange-IsCounted out p a d w =
      let (r, er, es) = bind-done (static_pop none p) (behind_pop out) d in
      behind_pop-IsCounted out (r.0) (r.1) (r.2) a es (pop-IsCounted none p r er w)

  -- What `OnReceivedPacket` does with the packet `y` that `ReUse` made in `o`.
  abbrev behind_reuse : ℕ → StaticProtocol B → StaticPacket B × ℕ → Access (ℕ × StaticProtocol B)
  behind_reuse o q (y, read) =
      let s = static_store c o y q in
      if static_is_valid c y
      then done (read, (static_push (some o) s).1)
      else (static_dealloc c e (some o) false s >>= λ t. done (read, t))

  behind_reuse-IsCounted :
      (o : ℕ) (p : StaticProtocol B) (y : StaticPacket B) (read n : ℕ) (q : StaticProtocol B)
      → behind_reuse o p (y, read) ≡ done (n, q)
      → IsCounted p
      → IsCounted q
  behind_reuse-IsCounted o p y read n q d w = elim (Bool-cases (static_is_valid c y)) [
    | inl v ↦
        let s = static_store c o y p in
        let d' : ◌≡◌ {A = Access (ℕ × StaticProtocol B)} (done (read, (static_push (some o) s).1))
            (done (n, q)) =
          rw v at d in
        let g : (static_push (some o) s).1 ≡ q = cc in
        subst IsCounted g (push-IsCounted (some o) s w)
    | inr v ↦
        let s = static_store c o y p in
        let (t, et, en) =
          bind-done (static_dealloc c e (some o) false s) (λ t. done (read, t)) (rw v at d) in
        let g : t ≡ q = cc in
        subst IsCounted g (SamePool-IsCounted s t (dealloc-SamePool c e (some o) false s t et) w)
  ]

  receive-IsCounted :
      (head : HeadStruct) (buffer : List ℕ) (size n : ℕ) (p q : StaticProtocol B)
      → on_received_packet c e head buffer size p ≡ done (n, q)
      → IsCounted p
      → IsCounted q
  unfolding on_received_packet static_alloc
  receive-IsCounted head buffer size n p q d w =
      let (o, z) = static_alloc c p in
      let (x, ex, d1) =
        bind-done (get (z.recycle_pool.objects) o)
          (λ x. static_reuse_head c x head buffer size >>= behind_reuse o z) d in
      let (y, ey, d2) = bind-done (static_reuse_head c x head buffer size) (behind_reuse o z) d1 in
      behind_reuse-IsCounted o z (y.0) (y.1) n q d2 w

  -- The states that a client reaches by the members that touch the pool, and by taking and giving
  -- back objects.
  pub data Reached (mode : Mode) : StaticProtocol B → Type 0 where
    created : Reached mode (static_protocol c mode)
    pushed :
        (x : Option ℕ) (p : StaticProtocol B) → Reached mode p → Reached mode ((static_push x p).1)
    popped :
        (out : Option ℕ) (p : StaticProtocol B) (a : Bool × Option ℕ × StaticProtocol B)
        → Reached mode p
        → static_pop out p ≡ done a
        → Reached mode (a.2)
    taken : (p : StaticProtocol B) → Reached mode p → Reached mode ((static_alloc c p).1)
    given_back :
        (x : Option ℕ) (force_recycle : Bool) (p q : StaticProtocol B)
        → Reached mode p
        → static_dealloc c e x force_recycle p ≡ done q
        → Reached mode q
    exchanged :
        (out : Option ℕ) (p : StaticProtocol B) (a : Bool × Option ℕ × StaticProtocol B)
        → Reached mode p
        → static_pop_with_recycle c e out p ≡ done a
        → Reached mode (a.2)
    received :
        (head : HeadStruct) (buffer : List ℕ) (size n : ℕ) (p q : StaticProtocol B)
        → Reached mode p
        → on_received_packet c e head buffer size p ≡ done (n, q)
        → Reached mode q

  -- In every state that the members of TServoProtocol reach from its constructor,
  -- PacketPoolCount is the number of pointers in the pool less those that its constructor made:
  -- none for a queue, 1024 for a stack.
  pub Reached-IsCounted : (mode : Mode) (p : StaticProtocol B) → Reached mode p → IsCounted p
  unfolding static_alloc
  Reached-IsCounted mode _ created = create-IsCounted c mode
  Reached-IsCounted mode _ (pushed x p r) = push-IsCounted x p (Reached-IsCounted mode p r)
  Reached-IsCounted mode _ (popped out p a r d) =
      pop-IsCounted out p a d (Reached-IsCounted mode p r)
  Reached-IsCounted mode _ (taken p r) = Reached-IsCounted mode p r
  Reached-IsCounted mode _ (given_back x force_recycle p q r d) =
      SamePool-IsCounted p q (dealloc-SamePool c e x force_recycle p q d)
        (Reached-IsCounted mode p r)
  Reached-IsCounted mode _ (exchanged out p a r d) =
      exchange-IsCounted out p a d (Reached-IsCounted mode p r)
  Reached-IsCounted mode _ (received head buffer size n p q r d) =
      receive-IsCounted head buffer size n p q d (Reached-IsCounted mode p r)
