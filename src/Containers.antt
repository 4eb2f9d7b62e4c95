-- ===== src/Containers.antt =====
-- `TArray`, `TMap` and `TSet` of Core/Containers/SeptemArray.h, SeptemMap.h and SeptemSet.h, which
-- the repository compiles where `UE_STYLE_CONTAINER` is set (Core/Public/marco.h sets it to 0).
--
-- A vector is a list, a map with keys of an unsigned type an association list in ascending order
-- (Graph/EdgeMap), a set of `int32` an ascending list. The second `operator[]` of `TMap` calls that of
-- a constant map, which `std::map` does not have, so that it cannot be called.
pub mod Keys
use septem_cpp.Common.{
  ℕ, List, [], ◌∷◌, ◌++◌, Bool, true, false, Option, none, some, length, get_int, put, Access,
  fault, abort, done, ◌>>=◌,
}
use septem_cpp.Common.Int.{ℤ, pos, negsuc, to_int32}
use septem_cpp.Graph.EdgeMap
use septem_cpp.Graph.Backward.{set_insert}

module _ {T : Type 0} where
  -- `Reset`: `resize` with a negative number, cast to a size, throws.
  unfoldable pub array_reset : ℤ → List T → Access (List T)
  array_reset (pos n) v = done []
  array_reset (negsuc n) v = abort

  -- `Num` and `Size`.
  unfoldable pub array_num : List T → ℤ
  array_num v = to_int32 (length v)

  unfoldable pub array_size : List T → ℕ
  array_size v = length v

  -- `operator[]` for reading, and an assignment through it.
  unfoldable pub array_at : List T → ℤ → Access T
  array_at v index = get_int v index

  unfoldable pub array_assign : List T → ℤ → T → Access (List T)
  array_assign v (pos i) item = put v i item
  array_assign v (negsuc n) item = fault

  -- `Add`, in both overloads.
  unfoldable pub array_add : T → List T → ℤ × List T
  array_add item v = (to_int32 (length v), v ++ item ∷ [])

-- A map with values `V`.
abbrev pub Map : Type 0 → Type 0
Map V = List (ℕ × V)

module _ {V : Type 0} where
  abbrev is_found : Option V → Bool
  is_found none = false
  is_found (some v) = true

  -- `Contains`.
  unfoldable pub map_contains : ℕ → Map V → Bool
  map_contains key m = is_found (EdgeMap.find key m)

  -- `Add`, which keeps a value that is there: `std::map::insert` changes nothing then.
  abbrev add_found : Option V → ℕ → V → Map V → Map V
  add_found none key value m = EdgeMap.insert key value m
  add_found (some v) key value m = m

  unfoldable pub map_add : ℕ → V → Map V → Map V
  map_add key value m = add_found (EdgeMap.find key m) key value m

  unfoldable pub map_reset : Map V → Map V
  map_reset m = []

  -- The loop of `GetKeys`, from an iterator on.
  unfoldable pub add_keys : Map V → List ℕ → List ℕ
  unfolding array_add
  add_keys [] out = out
  add_keys ((key, v) ∷ m) out = add_keys m ((array_add key out).1)

  unfoldable pub map_get_keys : Map V → List ℕ → Access (ℤ × List ℕ)
  unfolding array_reset add_keys
  map_get_keys m out_key_type_array = do
    out ← array_reset (pos 0) out_key_type_array
    done (to_int32 (length m), add_keys m out)

  -- `Num` and `Size`.
  unfoldable pub map_num : Map V → ℤ
  map_num m = to_int32 (length m)

  unfoldable pub map_size : Map V → ℕ
  map_size m = length m

  -- `operator[]`, which adds the value `initial` of `ValueType()` for a key that is not there.
  unfoldable pub map_at : V → ℕ → Map V → V × Map V
  map_at initial key m = EdgeMap.at_or_insert initial key m

-- `TSet<int32>`.
abbrev pub IntSet : Type 0
IntSet = List ℤ

unfoldable pub set_reset : IntSet → IntSet
set_reset s = []

unfoldable pub set_add : ℤ → IntSet → IntSet
set_add x s = set_insert x s
