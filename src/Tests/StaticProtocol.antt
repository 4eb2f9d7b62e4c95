-- ===== src/Tests/StaticProtocol.antt =====
-- The protocol of static packets with bodies of one word, in Stack mode.
use septem_cpp.Common.{
  ℕ, set, List, ◌≡◌, refl, [], ◌∷◌, Bool, true, false, Option, none, some, le_bytes, done, arith,
}
use septem_cpp.Common.Int.{pos, negsuc}
use septem_cpp.Wire.Head
use septem_cpp.Wire.Foot
use septem_cpp.Wire.Xor.{xor_loop}
use septem_cpp.Pool.Recycle.{RecyclePool, create, alloc}
use septem_cpp.Pool.Ownership.{Run, occurrences, created, allocated, written}
use septem_cpp.Pool.Stack.{stack_of, stack_pop, stack_is_empty, stack_create, pool_pop}
use septem_cpp.StaticPacket.{StaticPacket, init}
use septem_cpp.StaticPacket.Body.{Wrapper, wrapper_class, wrapper_class-IsSerial, wrapper_mem_size}
use septem_cpp.StaticPacket.Write.{IsStaticSendable, static_image}
use septem_cpp.StaticProtocol.{
  StaticProtocol, Engine, IsEngine, stack_mode, static_protocol, static_pop, static_push,
  create_pool,
}
use septem_cpp.StaticProtocol.Delivery.{receiver, DeliveryOutcome, call-pop_with_recycle}
use septem_cpp.StaticProtocol.Counts.{IsCounted}
use septem_cpp.StaticProtocol.Shelf
use septem_cpp.StaticProtocol.Shelf.{
  Action, through_get, through_pointer, through_singleton, shut_down, push, pop, packet_num,
  run_shelf,
}
use septem_cpp.StaticProtocol.Runs.{run-shelf}
use septem_cpp.Pool.Lifecycle.{flag, popped, number, nothing}
use septem_cpp.StaticProtocol.Reach
use septem_cpp.StaticProtocol.Reach.{Reached, pushed, Reached-IsCounted}
use septem_cpp.Factory.{Delegates, register_protocol_deserialize, lookup, insert_delegate}
use septem_cpp.Tests.StaticPacket.{word_class, word_packet, word_class-IsSerial}

-- The functions of Unreal Engine, as its documentation describes them.
abbrev is_some : Option ℕ → Bool
is_some none = false
is_some (some o) = true

abbrev unreal : Engine (Wrapper ℕ)
unreal = record { is_valid_pointer = is_some; move_temp = λ x. x; dealloc_force_recycle = λ x r. r }

unreal-IsEngine : IsEngine unreal
unreal-IsEngine = record { null_invalid = refl; object_valid = λ o. refl; move_eq = λ x. refl }

-- A sealed packet.
abbrev sealed_word : StaticPacket (Wrapper ℕ)
sealed_word = record word_packet { head = record (word_packet.head) { fastcode = 234 } }

sealed_word-IsSealed : xor_loop 0 (static_image sealed_word (le_bytes 4 1000)) ≡ 0
unfolding xor_loop le_bytes Head.to_bytes Foot.to_bytes
sealed_word-IsSealed = refl

sealed_word-IsStaticSendable :
    IsStaticSendable (wrapper_class word_class) sealed_word (le_bytes 4 1000)
sealed_word-IsStaticSendable = record {
  head_fits = record {
    syncword_fits = omega arith;
    version_fits = omega arith;
    fastcode_fits = omega arith;
    uid_fits = omega arith;
    size_fits = omega arith;
    reserved_fits = omega arith;
  };
  foot_fits = omega arith;
  body_serial = λ h.
      wrapper_class-IsSerial word_class (sealed_word.body) (le_bytes 4 1000)
        (word_class-IsSerial 1000 (omega arith));
}

-- Two objects, of which a client holds one.
abbrev two_objects : RecyclePool (StaticPacket (Wrapper ℕ))
two_objects = create (init (wrapper_class word_class)) (pos 2)

abbrev held_one : ℕ
held_one = (alloc (init (wrapper_class word_class)) two_objects).0

abbrev one_held : RecyclePool (StaticPacket (Wrapper ℕ))
one_held = (alloc (init (wrapper_class word_class)) two_objects).1

-- The free object held a packet before.
abbrev waiting : StaticProtocol (Wrapper ℕ)
waiting = record {
  syncword = 5;
  packet_pool = stack_of (none ∷ []);
  packet_pool_count = pos 0;
  recycle_pool = record one_held { objects = set (one_held.objects) 0 sealed_word };
}

waiting_run : Run (init (wrapper_class word_class)) (waiting.recycle_pool) (held_one ∷ [])
waiting_run =
    written 0 sealed_word one_held (held_one ∷ []) (allocated two_objects [] (created (pos 2)))

abbrev registered : Delegates (StaticProtocol (Wrapper ℕ))
registered = (pos 7, some (receiver (wrapper_class word_class) unreal)) ∷ []

call-pop_with_recycle_example :
    DeliveryOutcome
      (wrapper_class word_class)
      unreal
      unreal-IsEngine
      sealed_word
      (le_bytes 4 1000)
      (9 ∷ [])
      13
      waiting
      (held_one ∷ [])
      registered
      (pos 0)
      held_one
unfolding le_bytes register_protocol_deserialize lookup insert_delegate occurrences wrapper_mem_size
    alloc create
call-pop_with_recycle_example =
    call-pop_with_recycle (wrapper_class word_class) unreal unreal-IsEngine sealed_word
      (le_bytes 4 1000) (9 ∷ []) 13 waiting (held_one ∷ []) [] registered (pos 0) held_one
      (none ∷ []) refl refl sealed_word-IsStaticSendable sealed_word-IsSealed (λ b. refl)
      (omega arith) waiting_run (omega arith)

-- A protocol that got one null pointer.
abbrev pushed_one : StaticProtocol (Wrapper ℕ)
pushed_one = (static_push none (static_protocol (wrapper_class word_class) stack_mode)).1

Reached-IsCounted_example : IsCounted pushed_one
Reached-IsCounted_example =
    Reached-IsCounted (wrapper_class word_class) unreal stack_mode pushed_one
      (pushed none (static_protocol (wrapper_class word_class) stack_mode) Reach.created)

-- `Pop` of a new protocol in Stack mode gives a null pointer, and the count is -1 afterwards.
popped_null :
    (q : StaticProtocol (Wrapper ℕ)) × (static_pop
        (some 5)
        (static_protocol (wrapper_class word_class) stack_mode)
      ≡ done (true, none, q))
    × (q.packet_pool_count ≡ negsuc 0)
unfolding static_protocol create_pool stack_create static_pop pool_pop stack_pop stack_is_empty
popped_null = (_, refl, refl)

-- Two pointers in, three out, and the count; then the protocol is deleted.
abbrev stack_session : List Action
stack_session =
    through_get (push (some 1))
    ∷ through_singleton (push (some 2))
    ∷ through_pointer (pop none)
    ∷ through_get (pop none)
    ∷ through_get (pop (some 5))
    ∷ through_get packet_num
    ∷ shut_down
    ∷ []

run-shelf_example :
    Shelf.run (wrapper_class word_class) stack_mode stack_session none
    ≡ run_shelf stack_mode stack_session none
run-shelf_example = run-shelf (wrapper_class word_class) stack_mode stack_session

stack_replies :
    run_shelf stack_mode stack_session none
    ≡ done (
        flag true
        ∷ flag true
        ∷ popped true (some 2)
        ∷ popped true (some 1)
        ∷ popped true none
        ∷ number (negsuc 0)
        ∷ nothing
        ∷ [])
unfolding run_shelf
stack_replies = refl
