-- ===== src/Tests/Lifecycle.antt =====
-- Clients of the singletons, containers and scope locks at concrete inputs.
use septem_cpp.Common.{
  ℕ, ◌≡◌, refl, List, [], ◌∷◌, Bool, true, false, none, some, map, Access, fault, done,
}
use septem_cpp.Common.Int.{pos}
use septem_cpp.Pool.Lifecycle as ServoProtocol
use septem_cpp.Pool.Lifecycle.{Action, through_get, through_singleton, shut_down}
use septem_cpp.Pool.Counts.{run_counts}
use septem_cpp.Pool.Runs.{run-counts}
use septem_cpp.Factory
use septem_cpp.Factory.Lifecycle as ProtocolFactory
use septem_cpp.Factory.Table.{run_table, run-table}
use septem_cpp.Wire.Head
use septem_cpp.Containers.Keys.{Call, add, at_key, KeysOutcome, get_keys-changes}
use septem_cpp.Thread.Scope.{Mutex, IsMutex, nested_blocks, nested_blocks-done, take_all_locks}

-- A packet is queued and popped, an object taken and given back, the protocol deleted and made again.
abbrev protocol_session : List Action
protocol_session =
    through_get (ServoProtocol.push (some 3))
    ∷ through_singleton (ServoProtocol.pop none)
    ∷ through_get ServoProtocol.allocate
    ∷ through_get (ServoProtocol.deallocate (some 5) false)
    ∷ shut_down
    ∷ through_get ServoProtocol.packet_num
    ∷ []

run-counts_example : ServoProtocol.run protocol_session none ≡ run_counts protocol_session none
run-counts_example = run-counts protocol_session

abbrev adding : Factory.Delegate ℕ
adding head buffer size read w = done (pos size, w)

abbrev factory_session : List (ProtocolFactory.Action ℕ)
factory_session =
    ProtocolFactory.through_get (ProtocolFactory.register (pos 7) (some adding))
    ∷ ProtocolFactory.through_singleton (ProtocolFactory.is_registered (pos 7))
    ∷ ProtocolFactory.through_get
        (ProtocolFactory.deserialize_without_check (Head.init) [] 0 (pos 0) 5)
    ∷ ProtocolFactory.through_get (ProtocolFactory.is_registered (pos 0))
    ∷ ProtocolFactory.shut_down
    ∷ []

run-table_example : ProtocolFactory.run factory_session none ≡ run_table factory_session none
run-table_example = run-table factory_session

abbrev map_calls : List (Call ℕ)
map_calls = add 5 50 ∷ add 3 30 ∷ at_key 4 ∷ add 5 51 ∷ []

get_keys-changes_example : KeysOutcome 0 map_calls (9 ∷ [])
get_keys-changes_example = get_keys-changes 0 map_calls (9 ∷ [])

-- A mutex that is taken, or not.
abbrev lock_flag : Bool → Access Bool
lock_flag false = done true
lock_flag true = fault

abbrev unlock_flag : Bool → Access Bool
unlock_flag true = done false
unlock_flag false = fault

abbrev flag_mutex : Mutex Bool
flag_mutex = record { mutex_lock = lock_flag; mutex_unlock = unlock_flag }

flag_mutex-IsMutex : IsMutex flag_mutex false true
flag_mutex-IsMutex = record {
  lock_free = refl;
  lock_taken = refl;
  unlock_taken = refl;
  unlock_free = refl;
}

-- Three mutexes, none of which is taken.
abbrev three_locks : List Bool
three_locks = false ∷ false ∷ false ∷ []

abbrev give_seven : List Bool → Access (ℕ × List Bool)
give_seven locks = done (7, locks)

nested_blocks-done_example :
    nested_blocks flag_mutex (map some (2 ∷ 0 ∷ [])) give_seven three_locks ≡ done (7, three_locks)
unfolding take_all_locks
nested_blocks-done_example =
    nested_blocks-done flag_mutex false true flag_mutex-IsMutex 7 give_seven (2 ∷ 0 ∷ [])
      three_locks (((λ e. absurd cc), tt), (tt, tt)) (refl, (refl, tt)) refl
