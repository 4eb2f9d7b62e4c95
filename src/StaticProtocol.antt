-- ===== src/StaticProtocol.antt =====
-- `TServoProtocol<T, PoolMode>` of Servo/Protocol/ServoStaticProtocol.hpp: the protocol of packets
-- whose bodies are of a class `T`, with its queue or stack of received packets and its recycle pool.
--
-- The text names functions that the repository does not have: `IsValid` of a shared pointer,
-- `MoveTemp`, and `DeallocForceRecycle` of the pool, which are Unreal Engine's. They are parameters.

pub mod Receive
pub mod Outcome
pub mod Counts
pub mod Reach
pub mod Delivery
pub mod Transport
pub mod Shelf
pub mod Shows
pub mod Runs
use septem_cpp.Common.{
  ℕ, List, [], ◌∷◌, Bool, true, false, not, if◌then◌else◌, Option, none, some, set, get, Access,
  fault, done, ◌>>=◌, ◌>>◌, check, ◌≡◌,
}
use septem_cpp.Common.Int.{ℤ, pos, add_ℕ}
use septem_cpp.Wire.Head.{Head as HeadStruct, default_syncword}
use septem_cpp.Singleton.{is_null, dereference}
use septem_cpp.Pool.Recycle
use septem_cpp.Pool.Recycle.{RecyclePool, sub_ℕ}
use septem_cpp.Pool.Stack.{PacketPool, queue_of, stack_of, stack_create, pool_push, pool_pop}
use septem_cpp.StaticPacket.{
  BodyClass, StaticPacket, init, static_is_valid, static_reuse_head, static_on_dealloc,
}

-- `SPPMode`; `Fast` is `Queue`.
pub data Mode : Type 0 where
  stack_mode queue_mode heap_mode : Mode

abbrev pub fast : Mode
fast = queue_mode

-- The functions of Unreal Engine; `move_temp` gives the value that is moved.
pub record Engine (B : Type 0) : Type 0 where
  pub is_valid_pointer : Option ℕ → Bool
  pub move_temp : Option ℕ → Option ℕ
  pub dealloc_force_recycle : Option ℕ → RecyclePool (StaticPacket B) → RecyclePool (StaticPacket B)

-- What its documentation says of the first two: a pointer is valid if it is not null, and `MoveTemp`
-- changes a reference to one that can be moved from.
pub record IsEngine {B : Type 0} (e : Engine B) : Type 0 where
  pub null_invalid : e.is_valid_pointer none ≡ false
  pub object_valid : (o : ℕ) → e.is_valid_pointer (some o) ≡ true
  pub move_eq : (x : Option ℕ) → e.move_temp x ≡ x

pub record StaticProtocol (B : Type 0) : Type 0 where
  pub syncword : ℕ
  pub packet_pool : PacketPool
  pub packet_pool_count : ℤ
  pub recycle_pool : RecyclePool (StaticPacket B)

abbrev pub recycle_pool_maxnum : ℤ
recycle_pool_maxnum = pos 1024

-- The `switch` of the constructor.
unfoldable pub create_pool : Mode → PacketPool
create_pool stack_mode = stack_of stack_create
create_pool queue_mode = queue_of []
create_pool heap_mode = queue_of []

module _ {B : Type 0} (c : BodyClass B) where
  -- The constructor behind its `check`.
  unfoldable pub static_protocol : Mode → StaticProtocol B
  unfolding create_pool
  static_protocol mode = record {
    syncword = default_syncword;
    packet_pool = create_pool mode;
    packet_pool_count = pos 0;
    recycle_pool = Recycle.create (init c) recycle_pool_maxnum;
  }

  -- `new TServoProtocol<T, PoolMode>()`, on `pSingleton`.
  unfoldable pub new_static : Mode → Option (StaticProtocol B) → Access (Option (StaticProtocol B))
  new_static mode singleton = check (is_null singleton) >> done (some (static_protocol mode))

  -- `Get` and `GetRef`.
  unfoldable pub get_static : Mode → Option (StaticProtocol B) → Access (Option (StaticProtocol B))
  unfolding new_static
  get_static mode singleton =
      if is_null singleton then new_static mode singleton else done singleton

  unfoldable pub get_static_ref : Mode → Option (StaticProtocol B) → Access (StaticProtocol B)
  unfolding get_static
  get_static_ref mode singleton = get_static mode singleton >>= dereference

  -- `AllocNetPacket`.
  unfoldable pub static_alloc : StaticProtocol B → ℕ × StaticProtocol B
  static_alloc p =
      let (o, r) = Recycle.alloc (init c) (p.recycle_pool) in (o, record p { recycle_pool = r })

  -- `*o = x` for an object of the heap.
  abbrev pub static_store : ℕ → StaticPacket B → StaticProtocol B → StaticProtocol B
  static_store o x p = record p {
    recycle_pool = record (p.recycle_pool) { objects = set (p.recycle_pool.objects) o x };
  }

module _ {B : Type 0} where
  -- `Singleton`, which does not look at the pointer.
  unfoldable pub static_singleton : Option (StaticProtocol B) → Option (StaticProtocol B)
  static_singleton singleton = singleton

  unfoldable pub static_singleton_ref : Option (StaticProtocol B) → Access (StaticProtocol B)
  static_singleton_ref singleton = check (not (is_null singleton)) >> dereference singleton

  -- The destructor.
  unfoldable pub destroy_static : Option (StaticProtocol B) → Option (StaticProtocol B)
  destroy_static singleton = none

  -- `Push`.
  unfoldable pub static_push : Option ℕ → StaticProtocol B → Bool × StaticProtocol B
  unfolding pool_push
  static_push in_net_packet p =
      let (ok, q) = pool_push in_net_packet (p.packet_pool) in
      if ok
      then (true, record p { packet_pool = q; packet_pool_count = add_ℕ (p.packet_pool_count) 1 })
      else (false, record p { packet_pool = q })

  -- `Pop`.
  unfoldable pub static_pop :
      Option ℕ → StaticProtocol B → Access (Bool × Option ℕ × StaticProtocol B)
  unfolding pool_pop
  static_pop out_net_packet p = do
    r ← pool_pop out_net_packet (p.packet_pool)
    let (ok, out, q) = r
    if ok
        then done (
          true,
          out,
          record p { packet_pool = q; packet_pool_count = sub_ℕ (p.packet_pool_count) 1 },
        )
        else done (false, out, record p { packet_pool = q })

  -- `PacketPoolNum` and `RecyclePoolNum`.
  unfoldable pub static_packet_num : StaticProtocol B → ℤ
  static_packet_num p = p.packet_pool_count

  unfoldable pub static_recycle_num : StaticProtocol B → ℤ
  static_recycle_num p = Recycle.num (p.recycle_pool)

module _ {B : Type 0} (c : BodyClass B) (e : Engine B) where
  -- `InSharedPtr->OnDealloc()`.
  abbrev pub dealloc_packet : Option ℕ → StaticProtocol B → Access (StaticProtocol B)
  dealloc_packet none p = fault
  dealloc_packet (some o) p =
      get (p.recycle_pool.objects) o >>= λ x. done (static_store c o (static_on_dealloc c x) p)

  -- `DeallockNetPacket`.
  unfoldable pub static_dealloc : Option ℕ → Bool → StaticProtocol B → Access (StaticProtocol B)
  static_dealloc in_shared_ptr force_recycle p =
      if not (e.is_valid_pointer in_shared_ptr) then done p else (do
        q ← dealloc_packet in_shared_ptr p
        if force_recycle
            then done
                (record q { recycle_pool = e.dealloc_force_recycle in_shared_ptr (q.recycle_pool) })
            else done (record q { recycle_pool = Recycle.dealloc in_shared_ptr (q.recycle_pool) }))

  -- `PopWithRecycle`.
  unfoldable pub static_pop_with_recycle :
      Option ℕ → StaticProtocol B → Access (Bool × Option ℕ × StaticProtocol B)
  unfolding static_pop static_dealloc
  static_pop_with_recycle out_recycle_packet p = do
    r ← static_pop none p
    let (ok, new_packet, q) = r
    if ok
        then (static_dealloc out_recycle_packet false q >>= λ s.
            done (true, e.move_temp new_packet, s))
        else done (false, out_recycle_packet, q)

  -- `OnReceivedPacket`: what `ReceivedBytesRead` becomes, and the protocol.
  unfoldable pub on_received_packet :
      HeadStruct → List ℕ → ℕ → StaticProtocol B → Access (ℕ × StaticProtocol B)
  unfolding static_alloc static_push static_dealloc
  on_received_packet in_head buffer buffer_size p =
      let (o, q) = static_alloc c p in
      do
        x ← get (q.recycle_pool.objects) o
        r ← static_reuse_head c x in_head buffer buffer_size
        let (y, read) = r
        let s = static_store c o y q
        if static_is_valid c y
            then done (read, (static_push (some o) s).1)
            else (static_dealloc (some o) false s >>= λ t. done (read, t))
