-- ===== src/Tests/Calls.antt =====
-- A run of calls on a packet.
use septem_cpp.Common.{ℕ, ◌≡◌, List, [], ◌∷◌, done, arith}
use septem_cpp.Wire.Head
use septem_cpp.Packet.{Packet}
use septem_cpp.Packet
use septem_cpp.Packet.Typing.{IsTyped, init-IsTyped}
use septem_cpp.Packet.Calls.{
  PacketCall, call_reuse, call_on_stamp_seal, call_check_integrity, call_reuse_as_heartbeat,
  call_on_dealloc, call_on_alloc, AllArguments, call_all, call_all-IsTypedCall,
}

abbrev noise : List ℕ
noise =
    162 ∷ 241 ∷ 183 ∷ 230 ∷ 0 ∷ 0 ∷ 255 ∷ 255 ∷ 2 ∷ 0 ∷ 0 ∷ 0 ∷ 9 ∷ 9 ∷ 9 ∷ 9 ∷ 7 ∷ 8 ∷ 1 ∷ 2 ∷ 3
    ∷ 4 ∷ 5 ∷ 6 ∷ 7 ∷ 8 ∷ []

abbrev some_calls : List PacketCall
some_calls =
    call_reuse noise 26 Head.default_syncword
    ∷ call_check_integrity
    ∷ call_on_stamp_seal (record { tv_sec = 1; tv_nsec = 2 })
    ∷ call_on_alloc
    ∷ call_on_dealloc
    ∷ call_reuse_as_heartbeat 77 (record { tv_sec = 1; tv_nsec = 2 })
    ∷ []

some_calls-AllArguments : AllArguments some_calls
some_calls-AllArguments = (
  (omega arith, omega arith, omega arith, omega arith),
  (tt, (tt, (tt, (tt, (omega arith, tt))))),
)

call_all-IsTypedCall_example : (q : Packet) × (call_all some_calls Packet.init ≡ done q) × IsTyped q
call_all-IsTypedCall_example =
    call_all-IsTypedCall some_calls Packet.init some_calls-AllArguments init-IsTyped
