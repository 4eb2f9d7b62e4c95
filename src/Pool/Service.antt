-- ===== src/Pool/Service.antt =====
-- What the operations of `FServoProtocol` promise: the count of the queue, and heartbeats.
use septem_cpp.Common.{
  ℕ, suc, ◌<◌, ◌≡◌, ◌↔◌, refl, ap, ◌∙◌, ◌⊎◌, inl, inr, List, [], ◌∷◌, ◌++◌, true, false, Option,
  none, some, length, length-append, set, get_elem?, get-done_of, get_elem?_in, get_elem?-set_self,
  fault, done, ◌>>=◌, arith,
}
use septem_cpp.Common.Int.{pos, add_ℕ}
use septem_cpp.Wire.Foot.{Timespec}
use septem_cpp.Wire.Body
use septem_cpp.Wire.Xor.{xor_loop, xor_loop-lt}
use septem_cpp.Packet
use septem_cpp.Packet.{Packet as PacketStruct, reuse_as_heartbeat, check_integrity, on_dealloc}
use septem_cpp.Packet.Write.{image}
use septem_cpp.Packet.Seal.{IsSealable, with_fastcode, image-IsBytes, reuse_as_heartbeat-xor}
use septem_cpp.Packet.Delivery.{check_integrity_accepted}
use septem_cpp.Pool.Recycle
use septem_cpp.Pool.Ownership.{Run, allocated, written, occurrences, alloc-IsFree}
use septem_cpp.Pool.Protocol.{
  Protocol, Queue, queue_push, queue_pop, push_packet, pop_packet, alloc_net_packet,
  alloc_heartbeat, store, dealloc_net_packet, pop_with_recycle, create_protocol,
}

-- `PacketPoolCount` is the number of packets in the queue.
abbrev pub IsCounted : Protocol → Type 0
IsCounted p = p.packet_pool_count ≡ pos (length (p.packet_pool))

pub create_protocol-IsCounted : IsCounted create_protocol
unfolding create_protocol
create_protocol-IsCounted = refl

pub push_packet-IsCounted :
    (x : Option ℕ) (p : Protocol)
    → IsCounted p
    → let (ok, q) = push_packet x p in
      (ok ≡ true) × (q.packet_pool ≡ p.packet_pool ++ x ∷ []) × IsCounted q
unfolding push_packet queue_push add_ℕ
push_packet-IsCounted x p w = (
  refl,
  refl,
  ap (λ z. add_ℕ z 1) w ∙ ap pos (omega (arith, length-append (p.packet_pool) (x ∷ []))),
)

-- What `Pop` comes to.
abbrev pub PopOutcome : Option ℕ → Protocol → Type 0
PopOutcome out p =
    ((p.packet_pool ≡ []) × (pop_packet out p ≡ fault))
    ⊎ ((x : Option ℕ) × (q : Protocol) × (p.packet_pool ≡ x ∷ q.packet_pool)
        × (pop_packet out p ≡ done (true, out, q))
        × IsCounted q)

-- Pop of the protocol is undefined on an empty queue; otherwise it drops the front, returns true
-- and the output pointer as it was, and the count stays the number of packets in the queue.
pub pop_packet_outcome : (out : Option ℕ) (p : Protocol) → IsCounted p → PopOutcome out p
unfolding queue_pop pop_packet
pop_packet_outcome out p w = popped (p.packet_pool) refl
  where
    popped : (q : Queue) → p.packet_pool ≡ q → PopOutcome out p
    popped [] e = inl (e, rw (pop_packet, e) refl)
    popped (x ∷ q) e =
        let p' : Protocol = record p {
          packet_pool = q;
          packet_pool_count = Recycle.sub_ℕ (p.packet_pool_count) 1;
        } in
        inr (
          x,
          p',
          e,
          rw (pop_packet, e) refl,
          ap (λ z. Recycle.sub_ℕ z 1) (w ∙ ap (λ z. pos (length z)) e)
              ∙ Recycle.sub_ℕ-ge (suc (length q)) 1 (omega arith)
              ∙ ap pos (omega arith),
        )

heartbeat-IsSealable :
    (p : PacketStruct) (syncword : ℕ) (now : Timespec)
    → IsSealable (reuse_as_heartbeat p syncword now)
unfolding reuse_as_heartbeat Body.reset
heartbeat-IsSealable p syncword now = record {
  body_fits = refl;
  body_bytes = tt;
  fastcode_fits =
      let q = reuse_as_heartbeat p syncword now in
      let e = (reuse_as_heartbeat-xor p syncword now).1 in
      let l = xor_loop-lt (image (with_fastcode q 0)) (image-IsBytes (with_fastcode q 0) tt) in
      omega (arith, e, l);
}

-- What `AllocHeartbeat` comes to, for a pool whose clients hold `held`.
abbrev pub AllocOutcome : Timespec → Protocol → List ℕ → Type 0
AllocOutcome now p held =
    (o : ℕ) × (q : Protocol) × (x : PacketStruct) × (alloc_heartbeat now p ≡ done (o, q))
    × (occurrences o held ≡ 0)
    × (get_elem? (q.recycle_pool.objects) o ≡ some x)
    × (xor_loop 0 (image x) ≡ 0)
    × ((x.fast_integrity ≡ true) ↔ (x.head.fastcode ≡ 0))
    × Run Packet.init (q.recycle_pool) (o ∷ held)

-- What `AllocHeartbeat` comes to when the object that `Alloc` gives was made.
pub alloc_heartbeat_stored :
    (now : Timespec) (p : Protocol)
    → let (o, q) = alloc_net_packet p in
      o < length (q.recycle_pool.objects)
      → (x : PacketStruct) × (alloc_heartbeat now p ≡ done (o, store o x q))
        × (xor_loop 0 (image x) ≡ 0)
        × ((x.fast_integrity ≡ true) ↔ (x.head.fastcode ≡ 0))
unfolding alloc_net_packet alloc_heartbeat
alloc_heartbeat_stored now p lt =
    let q = (alloc_net_packet p).1 in
    let o = (alloc_net_packet p).0 in
    let (x, ex) = get_elem?_in (q.recycle_pool.objects) o lt in
    let h = reuse_as_heartbeat x (p.syncword) now in
    let (hx, hf) = reuse_as_heartbeat-xor x (p.syncword) now in
    let (ok, ec, iff) = check_integrity_accepted h (heartbeat-IsSealable x (p.syncword) now) hx in
    (
      record h { fast_integrity = ok },
      rw (alloc_heartbeat, get-done_of (q.recycle_pool.objects) o x ex, ◌>>=◌, ec) refl,
      hx,
      iff,
    )

-- For a pool that any calls of the recycle pool led to, in which clients give back only objects
-- that they hold, while any packet may be written to any object: AllocHeartbeat returns without
-- a fault an object that no client holds; the packet in it has the exclusive or 0, and is marked
-- valid exactly if its fastcode is 0; and the pool, with that object held, is again such a pool,
-- so that this goes for one call after another.
pub alloc_heartbeat_outcome :
    (now : Timespec) (p : Protocol) (held : List ℕ)
    → Run Packet.init (p.recycle_pool) held
    → AllocOutcome now p held
unfolding alloc_net_packet Recycle.alloc
alloc_heartbeat_outcome now p held r =
    let q = (alloc_net_packet p).1 in
    let o = (alloc_net_packet p).0 in
    let (free, out_of_pool, lt) = alloc-IsFree Packet.init (p.recycle_pool) held r in
    let (y, e, hx, iff) = alloc_heartbeat_stored now p lt in
    (
      o,
      store o y q,
      y,
      e,
      free,
      get_elem?-set_self (q.recycle_pool.objects) o y lt,
      hx,
      iff,
      written o y (q.recycle_pool) (o ∷ held) (allocated (p.recycle_pool) held r),
    )

-- The packet `y` is `z` without its body, size, session id and validity.
pub record IsResetOf (z y : PacketStruct) : Type 0 where
  pub head_eq : y.head ≡ record (z.head) { size = 0 }
  pub no_block : y.body.buffer_ptr ≡ none
  pub no_length : y.body.length ≡ 0
  pub foot_eq : y.foot ≡ z.foot
  pub sid_eq : y.sid ≡ 0
  pub invalid : y.fast_integrity ≡ false

-- What `PopWithRecycle` makes of a packet `x` at the front of the queue, when the caller gives back
-- the object `o`.
abbrev pub PopWithRecycleOutcome : ℕ → Protocol → Queue → Type 0
PopWithRecycleOutcome o p rest =
    (q : Protocol) × (z : PacketStruct) × (y : PacketStruct) × (pop_with_recycle (some o) p
      ≡ done (true, none, q))
    × (q.packet_pool ≡ rest)
    × IsCounted q
    × (q.recycle_pool.stack ≡ o ∷ p.recycle_pool.stack)
    × (q.recycle_pool.objects ≡ set (p.recycle_pool.objects) o y)
    × (get_elem? (p.recycle_pool.objects) o ≡ some z)
    × IsResetOf z y

-- With a packet in the queue and its count right, PopWithRecycle drops that packet, returns true
-- and a null pointer, and puts the object of the caller on the recycle pool; the packet in this
-- object then has no body block, body length 0, head size 0, session id 0 and is not valid, and
-- the rest of its head and its foot are as before.
pub pop_with_recycle_outcome :
    (o : ℕ) (p : Protocol) (x : Option ℕ) (rest : Queue)
    → IsCounted p
    → p.packet_pool ≡ x ∷ rest
    → o < length (p.recycle_pool.objects)
    → PopWithRecycleOutcome o p rest
unfolding pop_with_recycle dealloc_net_packet pop_packet Recycle.dealloc on_dealloc queue_pop
    Body.reset
pop_with_recycle_outcome o p x rest w e lt =
    let (z, ez) = get_elem?_in (p.recycle_pool.objects) o lt in
    let y = on_dealloc z in
    let p' : Protocol = record p {
      packet_pool = rest;
      packet_pool_count = Recycle.sub_ℕ (p.packet_pool_count) 1;
    } in
    let q : Protocol = record (store o y p') {
      recycle_pool =
          Recycle.push o (record (p.recycle_pool) { objects = set (p.recycle_pool.objects) o y });
    } in
    (
      q,
      z,
      y,
      rw (e, get-done_of (p.recycle_pool.objects) o z ez) refl,
      refl,
      ap (λ k. Recycle.sub_ℕ k 1) (w ∙ ap (λ k. pos (length k)) e)
          ∙ Recycle.sub_ℕ-ge (suc (length rest)) 1 (omega arith)
          ∙ ap pos (omega arith),
      refl,
      refl,
      ez,
      record {
        head_eq = refl;
        no_block = refl;
        no_length = refl;
        foot_eq = refl;
        sid_eq = refl;
        invalid = refl;
      },
    )
