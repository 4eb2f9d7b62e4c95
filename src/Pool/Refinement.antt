-- ===== src/Pool/Refinement.antt =====
-- `FServoProtocol` against the counts that a client sees (Pool/Counts), one call at a time.
use septem_cpp.Common.{
  ℕ, suc, ◌+◌, ◌<◌, ◌≤◌, ◌≡◌, refl, sym, ap, ◌∙◌, ◌⊎◌, inl, inr, List, [], ◌∷◌, ◌++◌, Bool, true,
  false, ltb, lt→ltb, Option, none, some, length, length-append, length-set, set, get_elem?_in,
  get-done_of, get-fault, Access, fault, done, arith, Bool-cases,
}
use septem_cpp.Common.Int.{ℤ, pos}
use septem_cpp.Wire.Foot.{Timespec}
use septem_cpp.Packet
use septem_cpp.Packet.{Packet as PacketStruct, on_dealloc}
use septem_cpp.Pool.Recycle
use septem_cpp.Pool.Recycle.{RecyclePool, lt-or-ge, push_new, sub_ℕ-ge}
use septem_cpp.Pool.Protocol.{
  Protocol, Queue, queue_push, queue_pop, push_packet, pop_packet, alloc_net_packet,
  alloc_heartbeat, store, dealloc_net_packet,
}
use septem_cpp.Pool.Service.{IsCounted, push_packet-IsCounted, alloc_heartbeat_stored}
use septem_cpp.Pool.Counts.{Counts, take_object, give_object, unqueue}

-- The counts of a protocol.
abbrev pub counts : Protocol → Counts
counts p = record {
  queued = length (p.packet_pool);
  free = p.recycle_pool.stack;
  made = length (p.recycle_pool.objects);
}

-- All numbers of a list are below `n`.
abbrev pub IsBelow : ℕ → List ℕ → Type 0
IsBelow n [] = Unit
IsBelow n (x ∷ xs) = (x < n) × IsBelow n xs

pub record IsSound (p : Protocol) : Type 0 where
  pub counted : IsCounted p
  pub free_made : IsBelow (length (p.recycle_pool.objects)) (p.recycle_pool.stack)

IsBelow-le : (m n : ℕ) (xs : List ℕ) → m ≤ n → IsBelow m xs → IsBelow n xs
IsBelow-le m n [] h w = tt
IsBelow-le m n (x ∷ xs) h (a, w) = (omega arith, IsBelow-le m n xs h w)

-- Both operations fault, or both are done with counts that agree.
abbrev pub AgreeOn : Access Protocol → Access Counts → Type 0
AgreeOn m n =
    ((m ≡ fault) × (n ≡ fault))
    ⊎ ((q : Protocol) × (m ≡ done q) × (n ≡ done (counts q)) × IsSound q)

module _ (syncword : ℕ) (count : ℤ) where
  abbrev protocol_of : Queue → List PacketStruct → List ℕ → Protocol
  protocol_of pool objects stack = record {
    syncword = syncword;
    packet_pool = pool;
    packet_pool_count = count;
    recycle_pool = record { objects = objects; stack = stack };
  }

  alloc_of :
      (pool : Queue) (objects : List PacketStruct) (stack : List ℕ)
      → let p = protocol_of pool objects stack in
        IsSound p
        → let (o, q) = alloc_net_packet p in
          (take_object (counts p) ≡ (o, counts q))
          × IsSound q
          × (o < length (q.recycle_pool.objects))
  unfolding alloc_net_packet Recycle.alloc Recycle.make_shared take_object
  alloc_of pool objects [] w =
      let l = length-append objects (Packet.init ∷ []) in
      (
        ap (λ n. (length objects, record { queued = length pool; free = []; made = n }))
            (omega arith),
        record { counted = w.counted; free_made = tt },
        omega arith,
      )
  alloc_of pool objects (o ∷ stack) w =
      (refl, record { counted = w.counted; free_made = w.free_made.1 }, w.free_made.0)

  pop_of :
      (pool : Queue) (r : RecyclePool PacketStruct) (out : Option ℕ)
      → let p : Protocol = protocol_of pool (r.objects) (r.stack) in
        IsSound p
        → ((pop_packet out p ≡ fault) × (unqueue (counts p) ≡ fault))
          ⊎ ((q : Protocol) × (pop_packet out p ≡ done (true, out, q))
              × (unqueue (counts p) ≡ done (counts q))
              × IsSound q)
  unfolding pop_packet queue_pop unqueue
  pop_of [] r out w = inl (refl, refl)
  pop_of (x ∷ pool) r out w = inr (
    record (protocol_of pool (r.objects) (r.stack)) { packet_pool_count = Recycle.sub_ℕ count 1 },
    refl,
    refl,
    record {
      counted =
          ap (λ z. Recycle.sub_ℕ z 1) (w.counted)
          ∙ sub_ℕ-ge (suc (length pool)) 1 (omega arith)
          ∙ ap pos (omega arith);
      free_made = w.free_made;
    },
  )

pub alloc_agrees :
    (p : Protocol)
    → IsSound p
    → let (o, q) = alloc_net_packet p in
      (take_object (counts p) ≡ (o, counts q)) × IsSound q × (o < length (q.recycle_pool.objects))
alloc_agrees p w =
    alloc_of (p.syncword) (p.packet_pool_count) (p.packet_pool) (p.recycle_pool.objects)
      (p.recycle_pool.stack) w

pub pop_agrees :
    (out : Option ℕ) (p : Protocol)
    → IsSound p
    → ((pop_packet out p ≡ fault) × (unqueue (counts p) ≡ fault))
      ⊎ ((q : Protocol) × (pop_packet out p ≡ done (true, out, q))
          × (unqueue (counts p) ≡ done (counts q))
          × IsSound q)
pop_agrees out p w =
    pop_of (p.syncword) (p.packet_pool_count) (p.packet_pool) (p.recycle_pool) out w

pub push_agrees :
    (x : Option ℕ) (p : Protocol)
    → IsSound p
    → let (ok, q) = push_packet x p in
      (ok ≡ true)
      × (counts q ≡ record (counts p) { queued = length (p.packet_pool) + 1 })
      × IsSound q
unfolding push_packet queue_push
push_agrees x p w =
    let l : length (p.packet_pool ++ x ∷ []) ≡ length (p.packet_pool) + 1 =
      length-append (p.packet_pool) (x ∷ []) in
    let with_queued : ℕ → Counts = λ n. record (counts p) { queued = n } in
    (
      refl,
      ap with_queued l,
      record { counted = (push_packet-IsCounted x p (w.counted)).2; free_made = w.free_made },
    )

-- The packet that an object holds does not show.
store_agrees :
    (o : ℕ) (x : PacketStruct) (p : Protocol)
    → IsSound p
    → (counts p ≡ counts (store o x p)) × IsSound (store o x p)
store_agrees o x p w =
    let l : length (p.recycle_pool.objects) ≡ length (set (p.recycle_pool.objects) o x) =
      sym (length-set (p.recycle_pool.objects) o x) in
    (
      ap (λ n. record { queued = length (p.packet_pool); free = p.recycle_pool.stack; made = n }) l,
      record {
        counted = w.counted;
        free_made = IsBelow-le _ _ (p.recycle_pool.stack) (omega (arith, l)) (w.free_made);
      },
    )

pub heartbeat_agrees :
    (now : Timespec) (p : Protocol)
    → IsSound p
    → (o : ℕ) × (q : Protocol) × (alloc_heartbeat now p ≡ done (o, q))
      × (take_object (counts p) ≡ (o, counts q))
      × IsSound q
heartbeat_agrees now p w =
    let (o, q) = alloc_net_packet p in
    let (e, v, lt) = alloc_agrees p w in
    let (x, d, xor_eq, iff) = alloc_heartbeat_stored now p lt in
    let (same, u) = store_agrees o x q v in (o, store o x q, d, e ∙ ap (λ c. (o, c)) same, u)

pub dealloc_agrees :
    (o : Option ℕ) (force_recycle : Bool) (p : Protocol)
    → IsSound p
    → AgreeOn (dealloc_net_packet o force_recycle p) (give_object o (counts p))
unfolding dealloc_net_packet give_object Recycle.dealloc
dealloc_agrees none force_recycle p w = inr (p, refl, refl, w)
dealloc_agrees (some o) force_recycle p w = elim (lt-or-ge o (length (p.recycle_pool.objects))) [
  | inr h ↦ inl (
    rw (get-fault (p.recycle_pool.objects) o h) refl,
    let e : ltb o (length (p.recycle_pool.objects)) ≡ false = ground (arith, h) in rw e refl,
  )
  | inl h ↦
      let (x, ex) = get_elem?_in (p.recycle_pool.objects) o h in
      let r = store o (on_dealloc x) p in
      let (same, v) = store_agrees o (on_dealloc x) p w in
      let q : Protocol = record r {
        recycle_pool = record (r.recycle_pool) { stack = o ∷ p.recycle_pool.stack };
      } in
      let l = length-set (p.recycle_pool.objects) o (on_dealloc x) in
      let freed : Counts → Counts = λ c. record c { free = o ∷ c.free } in
      inr (
        q,
        elim (Bool-cases force_recycle) [
          | inl f ↦ rw (get-done_of (p.recycle_pool.objects) o x ex, f) refl
          | inr f ↦ rw (get-done_of (p.recycle_pool.objects) o x ex, f) refl
        ],
        rw (lt→ltb o (length (p.recycle_pool.objects)) h) (ap (λ c. done (freed c)) same),
        record { counted = v.counted; free_made = (omega (arith, h, l), v.free_made) },
      )
]
