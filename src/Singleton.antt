-- ===== src/Singleton.antt =====
-- `TSingleton<T>` of Core/Templates/SeptemSingleton.hpp, the pattern that `FServoProtocol`
-- (Servo/Protocol/ServoProtocol.cpp) and `FProtocolFactory` (Servo/Protocol/ProtocolFactory.cpp)
-- repeat: `Get`, what the other functions make of the pointer, and the destructor.
--
-- Threads take turns by a schedule, a list of thread numbers; one turn is one access to the shared
-- state. The destructor runs between schedules.
pub mod Race
pub mod Calls
pub mod Collision
use septem_cpp.Common.{
  ℕ, ◌+◌, ◌≡◌, List, [], ◌∷◌, Bool, true, false, not, if◌then◌else◌, Option, none, some, get_elem?,
  set, replicate, Access, fault, abort, out_of_fuel, done, ◌>>=◌, ◌>>◌, check,
}

-- Where a thread stands in `Get`: before the test for a null pointer, behind the test and before the
-- lock, before `new T()`, before the end of the locked block, before `return pSingleton`, and behind
-- it with the result.
pub data Place : Type 0 where
  testing locking creating unlocking returning : Place
  finished : Option ℕ → Place

-- `pSingleton`, the number of objects that were made (an object is its number), the thread that has
-- the lock, and the places of the threads.
pub record System : Type 0 where
  pub singleton : Option ℕ
  pub made : ℕ
  pub lock : Option ℕ
  pub places : List Place

-- Whether a pointer is null.
abbrev pub is_null : {O : Type 0} → Option O → Bool
is_null none = true
is_null (some o) = false

abbrev pub go_to : ℕ → Place → System → System
go_to i place s = record s { places = set (s.places) i place }

-- `pSingleton = new T()`: the constructor checks that there is no singleton and sets the pointer.
unfoldable pub new_singleton : System → Access System
new_singleton s =
    check (is_null (s.singleton))
    >> done (record s { singleton = some (s.made); made = s.made + 1 })

-- What thread `i` does in its turn. A thread that finds the lock taken waits.
unfoldable pub turn : Place → ℕ → System → Access System
unfolding new_singleton
turn testing i s =
    if is_null (s.singleton) then done (go_to i locking s) else done (go_to i returning s)
turn locking i s =
    if is_null (s.lock) then done (go_to i creating (record s { lock = some i })) else done s
turn creating i s = new_singleton s >>= λ t. done (go_to i unlocking t)
turn unlocking i s = done (go_to i returning (record s { lock = none }))
turn returning i s = done (go_to i (finished (s.singleton)) s)
turn (finished r) i s = done s

-- The turn of a thread that does not exist changes nothing.
unfoldable pub step : ℕ → System → Access System
unfolding turn
step i s = elim (get_elem? (s.places) i) [ none ↦ done s | some place ↦ turn place i s ]

unfoldable pub run : List ℕ → System → Access System
unfolding step
run [] s = done s
run (i ∷ is) s = step i s >>= λ t. run is t

-- `n` threads that enter `Get` when nothing was made.
abbrev pub start : ℕ → System
start n = record { singleton = none; made = 0; lock = none; places = replicate n testing }

-- `Singleton`, which does not look at the pointer.
unfoldable pub singleton_pointer : System → Option ℕ
singleton_pointer s = s.singleton

-- `*pSingleton`
abbrev pub dereference : {O : Type 0} → Option O → Access O
dereference none = fault
dereference (some o) = done o

-- `SingletonRef`.
unfoldable pub singleton_ref : System → Access ℕ
singleton_ref s = check (not (is_null (s.singleton))) >> dereference (s.singleton)

-- `FServoProtocol::Singleton`, and that of the factory, which check the pointer too.
unfoldable pub checked_singleton : System → Access (Option ℕ)
checked_singleton s = check (not (is_null (s.singleton))) >> done (s.singleton)

-- The destructor.
unfoldable pub destroy : System → System
destroy s = record s { singleton = none }
