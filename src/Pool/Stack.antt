-- ===== src/Pool/Stack.antt =====
-- `TNetPacketPool` of Servo/Protocol/NetPacketPool.hpp: `TNetPacketStack`, and the calls of the base
-- class for an object of either class.
--
-- `Pop` of the stack assigns to its parameter, which is a reference to a constant in the text; the
-- model reads it as the base class describes it, a reference to a variable.
use septem_cpp.Common.{
  ℕ, List, [], ◌∷◌, Bool, true, false, if◌then◌else◌, Option, none, replicate, Access, done, ◌>>=◌,
}
use septem_cpp.Pool.Protocol.{Queue, queue_push, queue_pop, queue_is_empty}

abbrev pub max_netpacket_in_pool : ℕ
max_netpacket_in_pool = 1024

-- The shared pointers in a `TNetPacketStack`, its back first.
abbrev pub Stack : Type 0
Stack = List (Option ℕ)

-- The constructor: `resize` makes null pointers.
unfoldable pub stack_create : Stack
stack_create = replicate max_netpacket_in_pool none

unfoldable pub stack_push : Option ℕ → Stack → Bool × Stack
stack_push in_shared_ptr s = (true, in_shared_ptr ∷ s)

unfoldable pub stack_is_empty : Stack → Bool
stack_is_empty [] = true
stack_is_empty (x ∷ s) = false

-- What `Pop` does behind its test for an empty stack.
abbrev pop_back : Stack → Option ℕ → Bool × Option ℕ × Stack
pop_back [] out_shared_ptr = (false, out_shared_ptr, [])
pop_back (x ∷ s) out_shared_ptr = (true, x, s)

unfoldable pub stack_pop : Option ℕ → Stack → Bool × Option ℕ × Stack
unfolding stack_is_empty
stack_pop out_shared_ptr s =
    if stack_is_empty s then (false, out_shared_ptr, s) else pop_back s out_shared_ptr

-- The loops of the two destructors.
unfoldable pub clear : List (Option ℕ) → List (Option ℕ)
clear [] = []
clear (x ∷ s) = clear s

-- A `TNetPacketPool*`: an object of one of the classes.
pub data PacketPool : Type 0 where
  queue_of : Queue → PacketPool
  stack_of : Stack → PacketPool

unfoldable pub pool_push : Option ℕ → PacketPool → Bool × PacketPool
unfolding queue_push stack_push
pool_push x (queue_of q) = let (ok, r) = queue_push x q in (ok, queue_of r)
pool_push x (stack_of s) = let (ok, r) = stack_push x s in (ok, stack_of r)

unfoldable pub pool_pop : Option ℕ → PacketPool → Access (Bool × Option ℕ × PacketPool)
unfolding queue_pop stack_pop
pool_pop out (queue_of q) = queue_pop out q >>= λ r. done (r.0, r.1, queue_of (r.2))
pool_pop out (stack_of s) = let (ok, x, r) = stack_pop out s in done (ok, x, stack_of r)

unfoldable pub pool_is_empty : PacketPool → Bool
unfolding queue_is_empty stack_is_empty
pool_is_empty (queue_of q) = queue_is_empty q
pool_is_empty (stack_of s) = stack_is_empty s
