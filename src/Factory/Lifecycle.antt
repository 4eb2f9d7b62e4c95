-- ===== src/Factory/Lifecycle.antt =====
-- `pSingleton` of `FProtocolFactory` (Servo/Protocol/ProtocolFactory.cpp), one call after the other,
-- and the runs of a client of the class, which catches the exception of an empty delegate.
use septem_cpp.Common.{
  ℕ, List, [], ◌∷◌, Bool, true, not, if◌then◌else◌, Option, none, some, Access, done, ◌>>=◌, ◌>>◌,
  check,
}
use septem_cpp.Common.Int.{ℤ}
use septem_cpp.Singleton.{is_null, dereference}
use septem_cpp.Wire.Head.{Head as HeadStruct}
use septem_cpp.Factory.{
  Delegate, Delegates, register_protocol_deserialize, is_protocol_register,
  call_protocol_deserialize, call_protocol_deserialize_without_check,
}

-- `pSingleton`: the map of the object that it points at.
abbrev pub Pointer : Type 0 → Type 0
Pointer W = Option (Delegates W)

-- The calls of the members, each with the outside world that it finds.
pub data Call (W : Type 0) : Type 0 where
  register : ℤ → Option (Delegate W) → Call W
  is_registered : ℤ → Call W
  deserialize deserialize_without_check : HeadStruct → List ℕ → ℕ → ℤ → W → Call W

-- A flag, or what a deserialiser made of `RecivedBytesRead` and the world.
pub data Reply (W : Type 0) : Type 0 where
  flag : Bool → Reply W
  result : Access (ℤ × W) → Reply W

-- What a client does: a call through `GetRef`, one through `SingletonRef`, and `delete Singleton()`.
pub data Action (W : Type 0) : Type 0 where
  through_get through_singleton : Call W → Action W
  shut_down : Action W

module _ {W : Type 0} where
  -- `new FProtocolFactory()`.
  unfoldable pub new_factory : Pointer W → Access (Pointer W)
  new_factory singleton = check (is_null singleton) >> done (some [])

  -- `Get`; the pointer that it returns is the new `pSingleton`.
  unfoldable pub get_factory : Pointer W → Access (Pointer W)
  unfolding new_factory
  get_factory singleton = if is_null singleton then new_factory singleton else done singleton

  -- `GetRef`: the object, which `pSingleton` points at from then on.
  unfoldable pub get_factory_ref : Pointer W → Access (Delegates W)
  unfolding get_factory
  get_factory_ref singleton = get_factory singleton >>= dereference

  -- `Singleton`.
  unfoldable pub factory_singleton : Pointer W → Access (Pointer W)
  factory_singleton singleton = check (not (is_null singleton)) >> done singleton

  -- `SingletonRef`.
  unfoldable pub factory_singleton_ref : Pointer W → Access (Delegates W)
  factory_singleton_ref singleton = check (not (is_null singleton)) >> dereference singleton

  -- The destructor.
  unfoldable pub destroy_factory : Pointer W → Pointer W
  destroy_factory singleton = none

  -- A call of a member of an object.
  unfoldable pub perform : Call W → Delegates W → Reply W × Delegates W
  perform (register uid f) m = let (ok, n) = register_protocol_deserialize uid f m in (flag ok, n)
  perform (is_registered uid) m = (flag (is_protocol_register uid m), m)
  perform (deserialize head buffer size read w) m =
      (result (call_protocol_deserialize m head buffer size read w), m)
  perform (deserialize_without_check head buffer size read w) m =
      let (r, n) = call_protocol_deserialize_without_check m head buffer size read w in
      (result r, n)

  abbrev pub on_object : Call W → Delegates W → Access (Reply W × Pointer W)
  on_object c m = let (r, n) = perform c m in done (r, some n)

  unfoldable pub act : Action W → Pointer W → Access (Reply W × Pointer W)
  unfolding get_factory_ref factory_singleton_ref factory_singleton destroy_factory
  act (through_get c) s = get_factory_ref s >>= on_object c
  act (through_singleton c) s = factory_singleton_ref s >>= on_object c
  act shut_down s = factory_singleton s >>= λ p. done (flag true, destroy_factory p)

  -- The replies to a list of actions, up to the first failed check.
  unfoldable pub run : List (Action W) → Pointer W → Access (List (Reply W))
  unfolding act
  run [] s = done []
  run (a ∷ rest) s = do r ← act a s; rs ← run rest (r.1); done (r.0 ∷ rs)
