-- ===== src/StaticProtocol/Shows.antt =====
-- The calls of `TServoProtocol` that touch its pool, against the shelf that shows it.
use septem_cpp.Common.{
  ℕ, zero, suc, ◌+◌, ◌≡◌, refl, ap, ◌∙◌, subst, ◌⊎◌, inl, inr, List, [], ◌∷◌, ◌++◌, Bool, true,
  false, Option, none, length, length-append, length-replicate, replicate, Access, fault, done,
  ◌>>=◌, arith,
}
use septem_cpp.Common.Int.{pos}
use septem_cpp.Pool.Recycle.{sub_ℕ, sub_ℕ-ge}
use septem_cpp.Pool.Lifecycle.{Reply, flag, popped, number}
use septem_cpp.Pool.Protocol.{Queue, queue_pop}
use septem_cpp.Pool.Stack.{PacketPool, queue_of, stack_of, pool_pop, stack_pop, stack_is_empty}
use septem_cpp.StaticProtocol.{StaticProtocol, static_push, static_pop, static_packet_num}
use septem_cpp.StaticProtocol.Receive.{added, static_push-added}
use septem_cpp.StaticProtocol.Counts.{IsCounted, CountFits, push-IsCounted, pop-IsCounted}
use septem_cpp.StaticProtocol.Shelf.{
  Call, push, pop, packet_num, perform, Shelf, lifo, counter, perform_shelf,
}

-- The pool that a shelf stands for.
abbrev pub ShowsPool : PacketPool → Shelf → Type 0
ShowsPool pool (lifo xs nulls) = pool ≡ stack_of (xs ++ replicate nulls none)
ShowsPool pool (counter n) = (q : Queue) × (pool ≡ queue_of q) × (length q ≡ n)

module _ {B : Type 0} where
  pub record Shows (p : StaticProtocol B) (t : Shelf) : Type 0 where
    pub pool : ShowsPool (p.packet_pool) t
    pub counted : IsCounted p

  -- Both calls fault, or both are done with the same reply, and the shelf still shows the pool.
  abbrev pub Agree : Access (Reply × StaticProtocol B) → Access (Reply × Shelf) → Type 0
  Agree m n =
      ((m ≡ fault) × (n ≡ fault))
      ⊎ ((r : Reply) × (q : StaticProtocol B) × (t : Shelf) × (m ≡ done (r, q))
          × (n ≡ done (r, t))
          × Shows q t)

  push_agrees :
      (x : Option ℕ) (p : StaticProtocol B) (t : Shelf)
      → Shows p t
      → Agree (perform (push x) p) (perform_shelf (push x) t)
  unfolding perform perform_shelf
  push_agrees x p (lifo xs nulls) w =
      let e = static_push-added x p in
      inr (
        flag true,
        (static_push x p).1,
        lifo (x ∷ xs) nulls,
        rw e refl,
        refl,
        record {
          pool = ap (λ r. r.1.packet_pool) e ∙ ap (added x) (w.pool);
          counted = push-IsCounted x p (w.counted);
        },
      )
  push_agrees x p (counter n) w =
      let e = static_push-added x p in
      let (q, h, l) = w.pool in
      inr (
        flag true,
        (static_push x p).1,
        counter (n + 1),
        rw e refl,
        refl,
        record {
          pool = (
            q ++ x ∷ [],
            ap (λ r. r.1.packet_pool) e ∙ ap (added x) h,
            omega (arith, length-append q (x ∷ []), l),
          );
          counted = push-IsCounted x p (w.counted);
        },
      )

  -- What `Pop` does to a stack with `x` on top, and to an empty one.
  pop_top :
      (out x : Option ℕ) (xs : List (Option ℕ)) (p : StaticProtocol B)
      → p.packet_pool ≡ stack_of (x ∷ xs)
      → static_pop out p
        ≡ done (
          true,
          x,
          record p { packet_pool = stack_of xs; packet_pool_count = sub_ℕ (p.packet_pool_count) 1 },
        )
  unfolding static_pop pool_pop stack_pop stack_is_empty
  pop_top out x xs p h = rw (static_pop, h) refl

  pop_empty :
      (out : Option ℕ) (p : StaticProtocol B)
      → p.packet_pool ≡ stack_of []
      → static_pop out p ≡ done (false, out, record p { packet_pool = stack_of [] })
  unfolding static_pop pool_pop stack_pop stack_is_empty
  pop_empty out p h = rw (static_pop, h) refl

  pop_front :
      (out x : Option ℕ) (q : Queue) (p : StaticProtocol B)
      → p.packet_pool ≡ queue_of (x ∷ q)
      → static_pop out p
        ≡ done (
          true,
          out,
          record p { packet_pool = queue_of q; packet_pool_count = sub_ℕ (p.packet_pool_count) 1 },
        )
  unfolding static_pop pool_pop queue_pop
  pop_front out x q p h = rw (static_pop, h) refl

  pop_nothing :
      (out : Option ℕ) (p : StaticProtocol B)
      → p.packet_pool ≡ queue_of []
      → static_pop out p ≡ fault
  unfolding static_pop pool_pop queue_pop
  pop_nothing out p h = rw (static_pop, h) refl

  popped_agrees :
      (out : Option ℕ) (p : StaticProtocol B) (u : Shelf) (ok : Bool) (x : Option ℕ)
      (q : StaticProtocol B)
      → static_pop out p ≡ done (ok, x, q)
      → IsCounted p
      → ShowsPool (q.packet_pool) u
      → Agree (perform (pop out) p) (done (popped ok x, u))
  unfolding perform
  popped_agrees out p u ok x q e w s = inr (
    popped ok x,
    q,
    u,
    rw (e, ◌>>=◌) refl,
    refl,
    record { pool = s; counted = pop-IsCounted out p (ok, x, q) e w },
  )

  counter_agrees :
      (out : Option ℕ) (p : StaticProtocol B) (q : Queue)
      → p.packet_pool ≡ queue_of q
      → IsCounted p
      → Agree (perform (pop out) p) (perform_shelf (pop out) (counter (length q)))
  unfolding perform perform_shelf
  counter_agrees out p [] h w = inl (rw (pop_nothing out p h, ◌>>=◌) refl, refl)
  counter_agrees out p (x ∷ q) h w =
      popped_agrees out p (counter (length q)) true out _ (pop_front out x q p h) w (q, refl, refl)

  pop_agrees :
      (out : Option ℕ) (p : StaticProtocol B) (t : Shelf)
      → Shows p t
      → Agree (perform (pop out) p) (perform_shelf (pop out) t)
  unfolding perform_shelf
  pop_agrees out p (lifo (x ∷ xs) nulls) w =
      popped_agrees out p (lifo xs nulls) true x _
        (pop_top out x (xs ++ replicate nulls none) p (w.pool)) (w.counted) refl
  pop_agrees out p (lifo [] (suc nulls)) w =
      popped_agrees out p (lifo [] nulls) true none _
        (pop_top out none (replicate nulls none) p (w.pool)) (w.counted) refl
  pop_agrees out p (lifo [] zero) w =
      popped_agrees out p (lifo [] zero) false out _ (pop_empty out p (w.pool)) (w.counted) refl
  pop_agrees out p (counter n) w =
      let (q, h, l) = w.pool in
      subst (λ m. Agree (perform (pop out) p) (perform_shelf (pop out) (counter m))) l
        (counter_agrees out p q h (w.counted))

  counted_as :
      (p : StaticProtocol B) (pool : PacketPool)
      → p.packet_pool ≡ pool
      → IsCounted p
      → CountFits pool (p.packet_pool_count)
  counted_as p pool h w = subst (λ r. CountFits r (p.packet_pool_count)) h w

  num_agrees :
      (p : StaticProtocol B) (t : Shelf)
      → Shows p t
      → Agree (perform packet_num p) (perform_shelf packet_num t)
  unfolding perform perform_shelf static_packet_num
  num_agrees p (lifo xs nulls) w =
      let l : length (xs ++ replicate {A = Option ℕ} nulls none) ≡ length xs + nulls = omega (
        arith,
        length-append xs (replicate {A = Option ℕ} nulls none),
        length-replicate {A = Option ℕ} nulls none,
      ) in
      let e =
        counted_as p (stack_of (xs ++ replicate nulls none)) (w.pool) (w.counted)
        ∙ ap (λ k. sub_ℕ (pos k) 1024) l in
      inr (
        number (sub_ℕ (pos (length xs + nulls)) 1024),
        p,
        lifo xs nulls,
        ap (λ z. done (number z, p)) e,
        refl,
        w,
      )
  num_agrees p (counter n) w =
      let (q, h, l) = w.pool in
      let e =
        counted_as p (queue_of q) h (w.counted)
        ∙ sub_ℕ-ge (length q) 0 (omega arith)
        ∙ ap pos (omega (arith, l)) in
      inr (number (pos n), p, counter n, ap (λ z. done (number z, p)) e, refl, w)

  pub perform_agrees :
      (call : Call) (p : StaticProtocol B) (t : Shelf)
      → Shows p t
      → Agree (perform call p) (perform_shelf call t)
  perform_agrees (push x) p t w = push_agrees x p t w
  perform_agrees (pop out) p t w = pop_agrees out p t w
  perform_agrees packet_num p t w = num_agrees p t w
