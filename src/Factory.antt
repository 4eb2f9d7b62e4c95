-- ===== src/Factory.antt =====
-- `FProtocolFactory` of Servo/Protocol/ProtocolFactory.h and ProtocolFactory.cpp: the deserialisers
-- of the packet classes, by the uid in the head.
--
-- A deserialiser is a function of the head, the buffer, its size and `RecivedBytesRead`, which it
-- sets. The map is an association list in ascending order of the uids; a call through an empty
-- `std::function` throws and is an abort. Lifecycle has `pSingleton`.
pub mod Registry
pub mod Lifecycle
pub mod Table
use septem_cpp.Common.{
  ℕ, ◌+◌, ◌≡◌, List, [], ◌∷◌, Bool, true, false, if◌then◌else◌, ltb, ◌==◌, Option, none, some,
  Access, abort, done, ◌>>=◌,
}
use septem_cpp.Common.Int.{ℤ, pos, negsuc, eq_int, lt_int}
use septem_cpp.Wire.Head.{Head as HeadStruct}

-- A `std::function` that is not empty, on the outside world `W` that it changes.
abbrev pub Delegate : Type 0 → Type 0
Delegate W = HeadStruct → List ℕ → ℕ → ℤ → W → Access (ℤ × W)

-- The map; a delegate may be empty.
abbrev pub Delegates : Type 0 → Type 0
Delegates W = List (ℤ × Option (Delegate W))

module _ {W : Type 0} where
  -- `find`.
  unfoldable pub lookup : ℤ → Delegates W → Option (Option (Delegate W))
  lookup uid [] = none
  lookup uid ((k, f) ∷ m) = if eq_int uid k then some f else lookup uid m

  -- The insertion of a uid that is not there.
  unfoldable pub insert_delegate : ℤ → Option (Delegate W) → Delegates W → Delegates W
  insert_delegate uid f [] = (uid, f) ∷ []
  insert_delegate uid f ((k, g) ∷ m) =
      if lt_int uid k then (uid, f) ∷ (k, g) ∷ m else (k, g) ∷ insert_delegate uid f m

  -- `RegisterProtocolDeserialize`: what was registered first stays.
  unfoldable pub register_protocol_deserialize :
      ℤ → Option (Delegate W) → Delegates W → Bool × Delegates W
  register_protocol_deserialize in_uid in_lambda m = elim (lookup in_uid m) [
    | some f ↦ (false, m)
    | none ↦ (true, insert_delegate in_uid in_lambda m)
  ]

  -- `IsProtocolRegister`.
  unfoldable pub is_protocol_register : ℤ → Delegates W → Bool
  is_protocol_register in_uid m = elim (lookup in_uid m) [ some f ↦ true | none ↦ false ]

  -- A call of a `std::function`.
  abbrev pub invoke : Option (Delegate W) → Delegate W
  invoke none head buffer size read w = abort
  invoke (some f) head buffer size read w = f head buffer size read w

  -- `CallProtocolDeserialize`; a uid without a class is printed, and nothing else happens.
  unfoldable pub call_protocol_deserialize : Delegates W → Delegate W
  call_protocol_deserialize m in_head buffer size read w = elim (lookup (pos (in_head.uid)) m) [
    | none ↦ done (read, w)
    | some f ↦ invoke f in_head buffer size read w
  ]

  -- `CallProtocolDeserializeWithoutCheck`, which inserts an empty delegate for a new uid.
  unfoldable pub call_protocol_deserialize_without_check :
      Delegates W → HeadStruct → List ℕ → ℕ → ℤ → W → Access (ℤ × W) × Delegates W
  call_protocol_deserialize_without_check m in_head buffer size read w =
      elim (lookup (pos (in_head.uid)) m) [
        | some f ↦ (invoke f in_head buffer size read w, m)
        | none ↦
            (invoke none in_head buffer size read w, insert_delegate (pos (in_head.uid)) none m)
      ]
