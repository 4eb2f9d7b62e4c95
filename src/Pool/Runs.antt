-- ===== src/Pool/Runs.antt =====
-- Whole runs of a client of `FServoProtocol`, from no object on, against the counts.
use septem_cpp.Common.{
  ℕ, zero, suc, ◌+◌, ◌≤◌, ◌≡◌, refl, sym, subst, ap, ◌∙◌, ◌⊎◌, inl, inr, List, [], ◌∷◌, true, false,
  Option, none, some, length, length-append, Access, fault, abort, done, ◌>>=◌, arith, ◌++◌,
}
use septem_cpp.Common.Int.{pos, to_int32}
use septem_cpp.Packet
use septem_cpp.Packet.{Packet as PacketStruct}
use septem_cpp.Pool.Recycle
use septem_cpp.Pool.Recycle.{RecyclePool, push_new}
use septem_cpp.Pool.Protocol.{
  Protocol, push_packet, packet_pool_num, recycle_pool_num, alloc_net_packet, pop_with_recycle,
  create_protocol,
}
use septem_cpp.Pool.Lifecycle.{
  Pointer, Call, Reply, Action, push, pop, allocate, heartbeat, deallocate, exchange, packet_num,
  recycle_num, flag, popped, object, number, nothing, perform, through_get, through_singleton,
  shut_down, act, on_object, run, get_protocol_ref, get_protocol, new_protocol,
  protocol_singleton_ref, protocol_singleton, destroy_protocol,
}
use septem_cpp.Pool.Counts.{
  Counts, push_numbers, fresh, perform_counts, on_counts, act_counts, run_counts,
}
use septem_cpp.Pool.Refinement.{
  counts, IsBelow, IsSound, push_agrees, pop_agrees, alloc_agrees, heartbeat_agrees, dealloc_agrees,
}

-- Both calls fault, or both are done with the same reply and counts that agree.
Agree : Access (Reply × Protocol) → Access (Reply × Counts) → Type 0
Agree m n =
    ((m ≡ fault) × (n ≡ fault))
    ⊎ ((r : Reply) × (q : Protocol) × (m ≡ done (r, q)) × (n ≡ done (r, counts q)) × IsSound q)

perform_agrees :
    (c : Call) (p : Protocol) → IsSound p → Agree (perform c p) (perform_counts c (counts p))
unfolding Agree perform perform_counts pop_with_recycle packet_pool_num recycle_pool_num Recycle.num
perform_agrees (push x) p w =
    let (ok, e, v) = push_agrees x p w in
    inr (flag true, (push_packet x p).1, rw ok refl, ap (λ c. done (flag true, c)) (sym e), v)
perform_agrees (pop out) p w = elim (pop_agrees out p w) [
  | inl (a, b) ↦ inl (rw (a, ◌>>=◌) refl, rw (b, ◌>>=◌) refl)
  | inr (q, a, b, v) ↦ inr (popped true out, q, rw (a, ◌>>=◌) refl, rw (b, ◌>>=◌) refl, v)
]
perform_agrees allocate p w =
    let (e, v, lt) = alloc_agrees p w in
    inr (object ((alloc_net_packet p).0), (alloc_net_packet p).1, refl, rw e refl, v)
perform_agrees (heartbeat now) p w =
    let (o, q, a, b, v) = heartbeat_agrees now p w in
    inr (object o, q, rw (a, ◌>>=◌) refl, rw b refl, v)
perform_agrees (deallocate o force_recycle) p w = elim (dealloc_agrees o force_recycle p w) [
  | inl (a, b) ↦ inl (rw (a, ◌>>=◌) refl, rw (b, ◌>>=◌) refl)
  | inr (q, a, b, v) ↦ inr (nothing, q, rw (a, ◌>>=◌) refl, rw (b, ◌>>=◌) refl, v)
]
perform_agrees (exchange out) p w = elim (pop_agrees none p w) [
  | inl (a, b) ↦ inl (rw (a, ◌>>=◌) refl, rw (b, ◌>>=◌) refl)
  | inr (q, a, b, v) ↦ elim (dealloc_agrees out false q v) [
    | inl (c, d) ↦ inl (rw (a, ◌>>=◌, c, ◌>>=◌) refl, rw (b, ◌>>=◌, d, ◌>>=◌) refl)
    | inr (r, c, d, u) ↦
        inr (popped true none, r, rw (a, ◌>>=◌, c, ◌>>=◌) refl, rw (b, ◌>>=◌, d, ◌>>=◌) refl, u)
  ]
]
perform_agrees packet_num p w =
    inr (number (pos (length (p.packet_pool))), p, rw (w.counted) refl, refl, w)
perform_agrees recycle_num p w =
    inr (number (to_int32 (length (p.recycle_pool.stack))), p, refl, refl, w)

-- New objects get the next numbers.
push_new-numbers :
    (n : ℕ) (p : RecyclePool PacketStruct)
    → ((push_new Packet.init n p).stack ≡ push_numbers (length (p.objects)) n (p.stack))
      × (length ((push_new Packet.init n p).objects) ≡ length (p.objects) + n)
unfolding push_new push_numbers Recycle.make_shared
push_new-numbers zero p = (refl, omega arith)
push_new-numbers (suc n) p =
    let l : length (p.objects ++ Packet.init ∷ []) ≡ length (p.objects) + 1 =
      length-append (p.objects) (Packet.init ∷ []) in
    let (a, b) =
      push_new-numbers n (record {
        objects = p.objects ++ Packet.init ∷ [];
        stack = length (p.objects) ∷ p.stack;
      }) in
    (a ∙ ap (λ k. push_numbers k n (length (p.objects) ∷ p.stack)) l, omega (arith, b, l))

push_numbers-IsBelow :
    (start n m : ℕ) (s : List ℕ) → IsBelow m s → start + n ≤ m → IsBelow m (push_numbers start n s)
unfolding push_numbers
push_numbers-IsBelow start zero m s w h = w
push_numbers-IsBelow start (suc n) m s w h =
    push_numbers-IsBelow (start + 1) n m (start ∷ s) (omega arith, w) (omega arith)

create_protocol-fresh : counts create_protocol ≡ fresh
unfolding create_protocol fresh Recycle.create Recycle.reset
create_protocol-fresh =
    let (a, b) = push_new-numbers 1024 (record { objects = []; stack = [] }) in
    λ j. record { queued = 0; free = a j; made = b j }

create_protocol-IsSound : IsSound create_protocol
create_protocol-IsSound = record {
  counted = unfold create_protocol in refl;
  free_made =
      subst (λ c. IsBelow (c.made) (c.free)) (sym create_protocol-fresh)
        (unfold fresh in push_numbers-IsBelow 0 1024 1024 [] tt (omega arith));
}

-- What the client sees of `pSingleton`.
abbrev pub counts_of : Pointer → Option Counts
counts_of none = none
counts_of (some p) = some (counts p)

abbrev IsSoundPointer : Pointer → Type 0
IsSoundPointer none = Unit
IsSoundPointer (some p) = IsSound p

-- The same outcome: no value, or the same reply and counts that agree.
ActAgree : Access (Reply × Pointer) → Access (Reply × Option Counts) → Type 0
ActAgree m n =
    ((m ≡ fault) × (n ≡ fault))
    ⊎ (((m ≡ abort) × (n ≡ abort))
        ⊎ ((r : Reply) × (s : Pointer) × (m ≡ done (r, s))
            × (n ≡ done (r, counts_of s))
            × IsSoundPointer s))

on_object_agrees :
    (c : Call) (p : Protocol) → IsSound p → ActAgree (on_object c p) (on_counts c (counts p))
unfolding ActAgree Agree
on_object_agrees c p w = elim (perform_agrees c p w) [
  | inl (a, b) ↦ inl (rw (a, ◌>>=◌) refl, rw (b, ◌>>=◌) refl)
  | inr (r, q, a, b, v) ↦ inr (inr (r, some q, rw (a, ◌>>=◌) refl, rw (b, ◌>>=◌) refl, v))
]

act_agrees :
    (a : Action) (s : Pointer) → IsSoundPointer s → ActAgree (act a s) (act_counts a (counts_of s))
unfolding act act_counts get_protocol_ref get_protocol new_protocol protocol_singleton_ref
    protocol_singleton destroy_protocol
act_agrees (through_get c) none w =
    subst (λ f. ActAgree (on_object c create_protocol) (on_counts c f)) create_protocol-fresh
      (on_object_agrees c create_protocol create_protocol-IsSound)
act_agrees (through_get c) (some p) w = on_object_agrees c p w
act_agrees (through_singleton c) none w = unfold ActAgree in inr (inl (refl, refl))
act_agrees (through_singleton c) (some p) w = on_object_agrees c p w
act_agrees shut_down none w = unfold ActAgree in inr (inl (refl, refl))
act_agrees shut_down (some p) w = unfold ActAgree in inr (inr (nothing, none, refl, refl, tt))

runs_agree :
    (actions : List Action) (s : Pointer)
    → IsSoundPointer s
    → run actions s ≡ run_counts actions (counts_of s)
unfolding run run_counts ActAgree
runs_agree [] s w = refl
runs_agree (a ∷ rest) s w = elim (act_agrees a s w) [
  | inl (h, k) ↦ rw (h, k, ◌>>=◌) refl
  | inr (inl (h, k)) ↦ rw (h, k, ◌>>=◌) refl
  | inr (inr (r, t, h, k, v)) ↦ rw (h, k, ◌>>=◌, runs_agree rest t v) refl
]

-- A client that calls members of FServoProtocol through GetRef or SingletonRef and deletes the
-- object gets, for any list of calls from no object on, the replies of a machine that has only a
-- number of queued packets, the list of free objects and the number of objects made: Pop gives
-- back the pointer that it was given, and faults exactly when no packet is queued.
pub run-counts : (actions : List Action) → run actions none ≡ run_counts actions none
run-counts actions = runs_agree actions none tt
