-- ===== src/Pool/Counts.antt =====
-- What a client of `FServoProtocol` sees: a number of queued packets, the objects in the recycle
-- pool, the one to be given out next first, and how many objects were made. The packets themselves
-- do not show.
use septem_cpp.Common.{
  ℕ, zero, suc, ◌+◌, List, [], ◌∷◌, true, if◌then◌else◌, ltb, Option, none, some, length, Access,
  fault, abort, done, ◌>>=◌,
}
use septem_cpp.Common.Int.{pos, to_int32}
use septem_cpp.Pool.Lifecycle.{
  Call, Reply, Action, push, pop, allocate, heartbeat, deallocate, exchange, packet_num,
  recycle_num, flag, popped, object, number, nothing, through_get, through_singleton, shut_down,
}

pub record Counts : Type 0 where
  pub queued : ℕ
  pub free : List ℕ
  pub made : ℕ

-- The numbers from `start` on, pushed one by one.
unfoldable pub push_numbers : ℕ → ℕ → List ℕ → List ℕ
push_numbers start zero s = s
push_numbers start (suc n) s = push_numbers (start + 1) n (start ∷ s)

-- An empty queue and 1024 objects.
unfoldable pub fresh : Counts
fresh = record { queued = 0; free = push_numbers 0 1024 []; made = 1024 }

-- An object of the recycle pool, or a new one.
abbrev take_from : List ℕ → Counts → ℕ × Counts
take_from [] c = (c.made, record c { made = c.made + 1 })
take_from (o ∷ s) c = (o, record c { free = s })

unfoldable pub take_object : Counts → ℕ × Counts
take_object c = take_from (c.free) c

-- An object that was made goes back.
unfoldable pub give_object : Option ℕ → Counts → Access Counts
give_object none c = done c
give_object (some o) c = if ltb o (c.made) then done (record c { free = o ∷ c.free }) else fault

-- A packet leaves the queue.
abbrev less_one : ℕ → Counts → Access Counts
less_one zero c = fault
less_one (suc n) c = done (record c { queued = n })

unfoldable pub unqueue : Counts → Access Counts
unqueue c = less_one (c.queued) c

unfoldable pub perform_counts : Call → Counts → Access (Reply × Counts)
perform_counts (push x) c = done (flag true, record c { queued = c.queued + 1 })
perform_counts (pop out) c = unqueue c >>= λ d. done (popped true out, d)
perform_counts allocate c = let (o, d) = take_object c in done (object o, d)
perform_counts (heartbeat now) c = let (o, d) = take_object c in done (object o, d)
perform_counts (deallocate o force_recycle) c = give_object o c >>= λ d. done (nothing, d)
perform_counts (exchange o) c =
    unqueue c >>= λ d. (give_object o d >>= λ e. done (popped true none, e))
perform_counts packet_num c = done (number (pos (c.queued)), c)
perform_counts recycle_num c = done (number (to_int32 (length (c.free))), c)

abbrev pub on_counts : Call → Counts → Access (Reply × Option Counts)
on_counts c s = perform_counts c s >>= λ r. done (r.0, some (r.1))

-- The first call through `Get` finds a new protocol; the other actions fail a check without one.
unfoldable pub act_counts : Action → Option Counts → Access (Reply × Option Counts)
unfolding perform_counts
act_counts (through_get c) none = on_counts c fresh
act_counts (through_get c) (some s) = on_counts c s
act_counts (through_singleton c) none = abort
act_counts (through_singleton c) (some s) = on_counts c s
act_counts shut_down none = abort
act_counts shut_down (some s) = done (nothing, none)

unfoldable pub run_counts : List Action → Option Counts → Access (List Reply)
unfolding act_counts
run_counts [] s = done []
run_counts (a ∷ rest) s = do r ← act_counts a s; rs ← run_counts rest (r.1); done (r.0 ∷ rs)
