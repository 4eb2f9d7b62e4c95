-- ===== src/Pool/Lifecycle.antt =====
-- `pSingleton` of `FServoProtocol` (Servo/Protocol/ServoProtocol.cpp): the constructor with its
-- check, `Get`, `GetRef`, `Singleton`, `SingletonRef` and the destructor, one call after the other,
-- and the runs of a client of the class.
use septem_cpp.Common.{
  ℕ, List, [], ◌∷◌, Bool, not, if◌then◌else◌, Option, none, some, Access, done, ◌>>=◌, ◌>>◌, check,
}
use septem_cpp.Common.Int.{ℤ}
use septem_cpp.Singleton.{is_null, dereference}
use septem_cpp.Wire.Foot.{Timespec}
use septem_cpp.Pool.Protocol.{
  Protocol, create_protocol, push_packet, pop_packet, packet_pool_num, recycle_pool_num,
  alloc_net_packet, alloc_heartbeat, dealloc_net_packet, pop_with_recycle,
}

-- `pSingleton`: the object that it points at, and none for a null pointer.
abbrev pub Pointer : Type 0
Pointer = Option Protocol

-- `new FServoProtocol()`.
unfoldable pub new_protocol : Pointer → Access Pointer
new_protocol singleton = check (is_null singleton) >> done (some create_protocol)

-- `Get`; the pointer that it returns is the new `pSingleton`.
unfoldable pub get_protocol : Pointer → Access Pointer
unfolding new_protocol
get_protocol singleton = if is_null singleton then new_protocol singleton else done singleton

-- `GetRef`: the object, which `pSingleton` points at from then on.
unfoldable pub get_protocol_ref : Pointer → Access Protocol
unfolding get_protocol
get_protocol_ref singleton = get_protocol singleton >>= dereference

-- `Singleton`.
unfoldable pub protocol_singleton : Pointer → Access Pointer
protocol_singleton singleton = check (not (is_null singleton)) >> done singleton

-- `SingletonRef`.
unfoldable pub protocol_singleton_ref : Pointer → Access Protocol
protocol_singleton_ref singleton = check (not (is_null singleton)) >> dereference singleton

-- The destructor, which sets `pSingleton` to null and deletes the queue.
unfoldable pub destroy_protocol : Pointer → Pointer
destroy_protocol singleton = none

-- The calls of the members.
pub data Call : Type 0 where
  push : Option ℕ → Call
  pop : Option ℕ → Call
  allocate : Call
  heartbeat : Timespec → Call
  deallocate : Option ℕ → Bool → Call
  exchange : Option ℕ → Call
  packet_num recycle_num : Call

-- What a call gives back: a flag, a flag and the pointer that was passed by reference, an object, a
-- number, or nothing.
pub data Reply : Type 0 where
  flag : Bool → Reply
  popped : Bool → Option ℕ → Reply
  object : ℕ → Reply
  number : ℤ → Reply
  nothing : Reply

-- A call of a member of an object.
unfoldable pub perform : Call → Protocol → Access (Reply × Protocol)
perform (push x) p = let (ok, q) = push_packet x p in done (flag ok, q)
perform (pop out) p = do r ← pop_packet out p; done (popped (r.0) (r.1), r.2)
perform allocate p = let (o, q) = alloc_net_packet p in done (object o, q)
perform (heartbeat now) p = do r ← alloc_heartbeat now p; done (object (r.0), r.1)
perform (deallocate o force_recycle) p = do
  q ← dealloc_net_packet o force_recycle p
  done (nothing, q)
perform (exchange out) p = do r ← pop_with_recycle out p; done (popped (r.0) (r.1), r.2)
perform packet_num p = done (number (packet_pool_num p), p)
perform recycle_num p = done (number (recycle_pool_num p), p)

-- What a client does: a call through `GetRef`, a call through `SingletonRef`, which checks that the
-- object exists, and `delete Singleton()`.
pub data Action : Type 0 where
  through_get through_singleton : Call → Action
  shut_down : Action

abbrev pub on_object : Call → Protocol → Access (Reply × Pointer)
on_object c p = perform c p >>= λ r. done (r.0, some (r.1))

unfoldable pub act : Action → Pointer → Access (Reply × Pointer)
unfolding get_protocol_ref protocol_singleton_ref protocol_singleton destroy_protocol
act (through_get c) s = get_protocol_ref s >>= on_object c
act (through_singleton c) s = protocol_singleton_ref s >>= on_object c
act shut_down s = protocol_singleton s >>= λ p. done (nothing, destroy_protocol p)

-- The replies to a list of actions, up to the first fault or failed check.
unfoldable pub run : List Action → Pointer → Access (List Reply)
unfolding act
run [] s = done []
run (a ∷ rest) s = do r ← act a s; rs ← run rest (r.1); done (r.0 ∷ rs)
