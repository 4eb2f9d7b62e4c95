-- ===== src/StaticProtocol/Shelf.antt =====
-- What a client of `TServoProtocol` sees of its pool in each mode: a stack on top of null pointers, or
-- a number of packets that cannot be had back.
use septem_cpp.Common.{
  ℕ, zero, suc, ◌+◌, List, [], ◌∷◌, true, false, Option, none, some, length, Access, fault, abort,
  done, ◌>>=◌,
}
use septem_cpp.Common.Int.{pos}
use septem_cpp.Singleton.{dereference}
use septem_cpp.Pool.Recycle.{sub_ℕ}
use septem_cpp.Pool.Lifecycle.{Reply, flag, popped, number, nothing}
use septem_cpp.StaticPacket.{BodyClass}
use septem_cpp.StaticProtocol.{
  StaticProtocol, Mode, stack_mode, queue_mode, heap_mode, get_static_ref, static_singleton,
  static_singleton_ref, destroy_static, static_push, static_pop, static_packet_num,
}

-- The calls of the members that touch the pool.
pub data Call : Type 0 where
  push : Option ℕ → Call
  pop : Option ℕ → Call
  packet_num : Call

-- What a client does: a call through `GetRef`, through the pointer of `Singleton`, through
-- `SingletonRef`, and `delete Singleton()`.
pub data Action : Type 0 where
  through_get through_pointer through_singleton : Call → Action
  shut_down : Action

module _ {B : Type 0} where
  unfoldable pub perform : Call → StaticProtocol B → Access (Reply × StaticProtocol B)
  perform (push x) p = let (ok, q) = static_push x p in done (flag ok, q)
  perform (pop out) p = do r ← static_pop out p; done (popped (r.0) (r.1), r.2)
  perform packet_num p = done (number (static_packet_num p), p)

  abbrev pub on_object : Call → StaticProtocol B → Access (Reply × Option (StaticProtocol B))
  on_object c p = perform c p >>= λ r. done (r.0, some (r.1))

module _ {B : Type 0} (c : BodyClass B) (mode : Mode) where
  unfoldable pub act :
      Action → Option (StaticProtocol B) → Access (Reply × Option (StaticProtocol B))
  unfolding get_static_ref static_singleton static_singleton_ref destroy_static
  act (through_get call) s = get_static_ref c mode s >>= on_object call
  act (through_pointer call) s = dereference (static_singleton s) >>= on_object call
  act (through_singleton call) s = static_singleton_ref s >>= on_object call
  act shut_down s = done (nothing, destroy_static s)

  -- The replies to a list of actions, up to the first fault or failed check.
  unfoldable pub run : List Action → Option (StaticProtocol B) → Access (List Reply)
  unfolding act
  run [] s = done []
  run (a ∷ rest) s = do r ← act a s; rs ← run rest (r.1); done (r.0 ∷ rs)

-- A stack of pointers with null pointers below it, or a number.
pub data Shelf : Type 0 where
  lifo : List (Option ℕ) → ℕ → Shelf
  counter : ℕ → Shelf

-- The shelf of a new protocol.
abbrev pub new_shelf : Mode → Shelf
new_shelf stack_mode = lifo [] 1024
new_shelf queue_mode = counter 0
new_shelf heap_mode = counter 0

unfoldable pub perform_shelf : Call → Shelf → Access (Reply × Shelf)
perform_shelf (push x) (lifo xs nulls) = done (flag true, lifo (x ∷ xs) nulls)
perform_shelf (push x) (counter n) = done (flag true, counter (n + 1))
perform_shelf (pop out) (lifo (x ∷ xs) nulls) = done (popped true x, lifo xs nulls)
perform_shelf (pop out) (lifo [] (suc nulls)) = done (popped true none, lifo [] nulls)
perform_shelf (pop out) (lifo [] zero) = done (popped false out, lifo [] zero)
perform_shelf (pop out) (counter zero) = fault
perform_shelf (pop out) (counter (suc n)) = done (popped true out, counter n)
perform_shelf packet_num (lifo xs nulls) =
    done (number (sub_ℕ (pos (length xs + nulls)) 1024), lifo xs nulls)
perform_shelf packet_num (counter n) = done (number (pos n), counter n)

abbrev pub on_shelf : Call → Shelf → Access (Reply × Option Shelf)
on_shelf call t = perform_shelf call t >>= λ r. done (r.0, some (r.1))

module _ (mode : Mode) where
  unfoldable pub act_shelf : Action → Option Shelf → Access (Reply × Option Shelf)
  unfolding perform_shelf
  act_shelf (through_get call) none = on_shelf call (new_shelf mode)
  act_shelf (through_get call) (some t) = on_shelf call t
  act_shelf (through_pointer call) none = fault
  act_shelf (through_pointer call) (some t) = on_shelf call t
  act_shelf (through_singleton call) none = abort
  act_shelf (through_singleton call) (some t) = on_shelf call t
  act_shelf shut_down t = done (nothing, none)

  unfoldable pub run_shelf : List Action → Option Shelf → Access (List Reply)
  unfolding act_shelf
  run_shelf [] t = done []
  run_shelf (a ∷ rest) t = do r ← act_shelf a t; rs ← run_shelf rest (r.1); done (r.0 ∷ rs)
