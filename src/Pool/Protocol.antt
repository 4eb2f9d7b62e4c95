-- ===== src/Pool/Protocol.antt =====
-- `TNetPacketQueue` of Servo/Protocol/NetPacketPool.hpp and `FServoProtocol` of
-- Servo/Protocol/ServoProtocol.cpp.
use septem_cpp.Common.{
  ℕ, List, [], ◌∷◌, ◌++◌, Bool, true, false, if◌then◌else◌, Option, none, some, set, get, Access,
  fault, done, ◌>>=◌,
}
use septem_cpp.Common.Int.{ℤ, pos, add_ℕ}
use septem_cpp.Wire.Head.{default_syncword}
use septem_cpp.Wire.Foot.{Timespec}
use septem_cpp.Packet
use septem_cpp.Packet.{Packet as PacketStruct, reuse_as_heartbeat, check_integrity, on_dealloc}
use septem_cpp.Pool.Recycle
use septem_cpp.Pool.Recycle.{RecyclePool, sub_ℕ}

-- The shared pointers in a `TNetPacketQueue`, its front first.
abbrev pub Queue : Type 0
Queue = List (Option ℕ)

unfoldable pub queue_push : Option ℕ → Queue → Bool × Queue
queue_push in_shared_ptr q = (true, q ++ in_shared_ptr ∷ [])

-- `Pop` neither tests for an empty queue, whose `pop` is undefined, nor assigns `OutSharedPtr`.
unfoldable pub queue_pop : Option ℕ → Queue → Access (Bool × Option ℕ × Queue)
queue_pop out_shared_ptr [] = fault
queue_pop out_shared_ptr (x ∷ q) = done (true, out_shared_ptr, q)

unfoldable pub queue_is_empty : Queue → Bool
queue_is_empty [] = true
queue_is_empty (x ∷ q) = false

pub record Protocol : Type 0 where
  pub syncword : ℕ
  pub packet_pool : Queue
  pub packet_pool_count : ℤ
  pub recycle_pool : RecyclePool PacketStruct

abbrev pub recycle_pool_maxnum : ℤ
recycle_pool_maxnum = pos 1024

-- The constructor, without the `check` and the assignment of `pSingleton`.
unfoldable pub create_protocol : Protocol
create_protocol = record {
  syncword = default_syncword;
  packet_pool = [];
  packet_pool_count = pos 0;
  recycle_pool = Recycle.create Packet.init recycle_pool_maxnum;
}

-- `Push`.
unfoldable pub push_packet : Option ℕ → Protocol → Bool × Protocol
push_packet in_net_packet p =
    let (ok, q) = queue_push in_net_packet (p.packet_pool) in
    if ok
    then (true, record p { packet_pool = q; packet_pool_count = add_ℕ (p.packet_pool_count) 1 })
    else (false, record p { packet_pool = q })

-- `Pop`.
unfoldable pub pop_packet : Option ℕ → Protocol → Access (Bool × Option ℕ × Protocol)
pop_packet out_net_packet p = do
  r ← queue_pop out_net_packet (p.packet_pool)
  let (ok, out, q) = r
  if ok
      then done (
        true,
        out,
        record p { packet_pool = q; packet_pool_count = sub_ℕ (p.packet_pool_count) 1 },
      )
      else done (false, out, record p { packet_pool = q })

-- `PacketPoolNum` and `RecyclePoolNum`.
unfoldable pub packet_pool_num : Protocol → ℤ
packet_pool_num p = p.packet_pool_count

unfoldable pub recycle_pool_num : Protocol → ℤ
recycle_pool_num p = Recycle.num (p.recycle_pool)

-- `AllocNetPacket`.
unfoldable pub alloc_net_packet : Protocol → ℕ × Protocol
alloc_net_packet p =
    let (o, r) = Recycle.alloc Packet.init (p.recycle_pool) in (o, record p { recycle_pool = r })

-- `*o = x` for an object of the heap.
abbrev pub store : ℕ → PacketStruct → Protocol → Protocol
store o x p = record p {
  recycle_pool = record (p.recycle_pool) { objects = set (p.recycle_pool.objects) o x };
}

-- `AllocHeartbeat`, which drops the result of `CheckIntegrity`.
unfoldable pub alloc_heartbeat : Timespec → Protocol → Access (ℕ × Protocol)
unfolding alloc_net_packet
alloc_heartbeat now p =
    let (ret, q) = alloc_net_packet p in
    do
      x ← get (q.recycle_pool.objects) ret
      r ← check_integrity (reuse_as_heartbeat x (p.syncword) now)
      let (y, ok) = r
      done (ret, store ret y q)

-- `DeallockNetPacket`. Both values of `bForceRecycle` lead to the same call.
unfoldable pub dealloc_net_packet : Option ℕ → Bool → Protocol → Access Protocol
dealloc_net_packet none force_recycle p = done p
dealloc_net_packet (some o) force_recycle p = do
  x ← get (p.recycle_pool.objects) o
  let q = store o (on_dealloc x) p
  if force_recycle
      then done (record q { recycle_pool = Recycle.dealloc (some o) (q.recycle_pool) })
      else done (record q { recycle_pool = Recycle.dealloc (some o) (q.recycle_pool) })

-- `PopWithRecycle`.
unfoldable pub pop_with_recycle : Option ℕ → Protocol → Access (Bool × Option ℕ × Protocol)
unfolding pop_packet dealloc_net_packet
pop_with_recycle out_recycle_packet p = do
  r ← pop_packet none p
  let (ok, new_packet, q) = r
  if ok
      then (dealloc_net_packet out_recycle_packet false q >>= λ s. done (true, new_packet, s))
      else done (false, out_recycle_packet, q)
