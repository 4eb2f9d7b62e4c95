-- ===== src/Tests/Pool.antt =====
-- Pools and the protocol at concrete inputs.
use septem_cpp.Common.{
  ℕ, set, ◌≡◌, ◌<◌, refl, [], ◌∷◌, ◌++◌, true, none, some, done, length, max, arith,
}
use septem_cpp.Common.Int.{pos}
use septem_cpp.Wire.Foot.{Timespec}
use septem_cpp.Packet
use septem_cpp.Pool.Recycle.{
  RecyclePool, create, reset, resize, size, alloc, dealloc, size-resize, size-reset,
}
use septem_cpp.Pool.Ownership.{
  Run, IsOwned, occurrences, created, allocated, returned, written, Run-IsOwned, alloc-IsFree,
}
use septem_cpp.Pool.Protocol.{Protocol, create_protocol, push_packet}
use septem_cpp.Pool.Service.{
  IsCounted, PopOutcome, AllocOutcome, PopWithRecycleOutcome, create_protocol-IsCounted,
  push_packet-IsCounted, pop_packet_outcome, alloc_heartbeat_outcome, pop_with_recycle_outcome,
}

abbrev three : RecyclePool ℕ
three = create 7 (pos 3)

size-resize_example : (q : RecyclePool ℕ) × (resize 7 (pos 2) three ≡ done q) × (size q ≡ 2)
size-resize_example = size-resize 7 2 three

size-reset_example : size (reset 7 (pos 2) three) ≡ max 2 (size three)
size-reset_example = size-reset 7 2 three

-- One object taken, given back, and another one taken.
taken_twice :
    Run 7
      ((alloc 7 (dealloc (some ((alloc 7 three).0)) ((alloc 7 three).1))).1)
      ((alloc 7 (dealloc (some ((alloc 7 three).0)) ((alloc 7 three).1))).0 ∷ [])
taken_twice =
    allocated (dealloc (some ((alloc 7 three).0)) ((alloc 7 three).1)) [] (
      returned ((alloc 7 three).0) [] [] ((alloc 7 three).1) (allocated three [] (created (pos 3))))

Run-IsOwned_example : IsOwned three []
Run-IsOwned_example = Run-IsOwned 7 three [] (created (pos 3))

abbrev one_taken : RecyclePool ℕ
one_taken = (alloc 7 three).1

alloc-IsFree_example :
    (occurrences ((alloc 7 one_taken).0) ((alloc 7 three).0 ∷ []) ≡ 0)
    × (occurrences ((alloc 7 one_taken).0) ((alloc 7 one_taken).1.stack) ≡ 0)
    × ((alloc 7 one_taken).0 < length ((alloc 7 one_taken).1.objects))
alloc-IsFree_example =
    alloc-IsFree 7 one_taken ((alloc 7 three).0 ∷ []) (allocated three [] (created (pos 3)))

abbrev queued : Protocol
queued = (push_packet (some 0) create_protocol).1

queued-IsCounted : IsCounted queued
queued-IsCounted = (push_packet-IsCounted (some 0) create_protocol create_protocol-IsCounted).2

push_packet-IsCounted_example :
    let (ok, q) = push_packet (some 1) queued in
    (ok ≡ true) × (q.packet_pool ≡ queued.packet_pool ++ some 1 ∷ []) × IsCounted q
push_packet-IsCounted_example = push_packet-IsCounted (some 1) queued queued-IsCounted

pop_packet_outcome_example : PopOutcome none queued
pop_packet_outcome_example = pop_packet_outcome none queued queued-IsCounted

abbrev noon : Timespec
noon = record { tv_sec = 1550000000; tv_nsec = 5000000 }

abbrev servo : Protocol
servo = record {
  syncword = 3742498846;
  packet_pool = some 0 ∷ [];
  packet_pool_count = pos 1;
  recycle_pool = record { objects = Packet.init ∷ Packet.init ∷ []; stack = [] };
}

abbrev two_packets : RecyclePool Packet.Packet
two_packets = create Packet.init (pos 2)

abbrev used_packet : Packet.Packet
used_packet = record (Packet.init) { sid = 5 }

-- Nobody holds an object, and the next one was used before.
abbrev fresh : Protocol
fresh = record {
  syncword = 3742498846;
  packet_pool = [];
  packet_pool_count = pos 0;
  recycle_pool = record two_packets { objects = set (two_packets.objects) 1 used_packet };
}

alloc_heartbeat_outcome_example : AllocOutcome noon fresh []
alloc_heartbeat_outcome_example =
    alloc_heartbeat_outcome noon fresh [] (written 1 used_packet two_packets [] (created (pos 2)))

pop_with_recycle_outcome_example : PopWithRecycleOutcome 1 servo []
pop_with_recycle_outcome_example =
    pop_with_recycle_outcome 1 servo (some 0) [] refl refl (omega arith)
