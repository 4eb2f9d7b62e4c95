-- ===== src/Containers/Keys.antt =====
-- What `TMap::GetKeys` gives, and what the last calls of `Add` and `operator[]` left.
use septem_cpp.Common.{
  ℕ, ◌<◌, ◌≡◌, refl, sym, ap, ◌∙◌, inl, inr, List, [], ◌∷◌, ◌++◌, append_assoc, append-nil, subst,
  Bool, true, false, if◌then◌else◌, ◌==◌, Bool-cases, Option, none, some, Option-cases, length,
  done, arith,
}
use septem_cpp.Common.Int.{to_int32}
use septem_cpp.Graph.EdgeMap.{
  find, at_or_insert, keys, Above, IsSorted, find-insert, insert-IsSorted,
}
use septem_cpp.Containers.{
  Map, array_add, array_reset, map_contains, map_add, map_reset, map_get_keys, add_keys, map_at,
  map_num,
}

-- The calls that change a map.
pub data Call (V : Type 0) : Type 0 where
  add : ℕ → V → Call V
  at_key : ℕ → Call V
  reset : Call V

module _ {V : Type 0} (initial : V) where
  unfoldable pub change : Call V → Map V → Map V
  unfolding map_add map_at map_reset
  change (add key value) m = map_add key value m
  change (at_key key) m = (map_at initial key m).1
  change reset m = map_reset m

  unfoldable pub changes : List (Call V) → Map V → Map V
  unfolding change
  changes [] m = m
  changes (c ∷ rest) m = changes rest (change c m)

  -- `operator[]` changes a map as `Add` of the initial value does.
  at_key-add : (key : ℕ) (m : Map V) → change (at_key key) m ≡ change (add key initial) m
  unfolding change map_add map_at at_or_insert
  at_key-add key m = elim (Option-cases (find key m)) [
    | inl h ↦ rw (change, map_at, map_add, at_or_insert, h) refl
    | inr (v, h) ↦ rw (change, map_at, map_add, at_or_insert, h) refl
  ]

  add-IsSorted :
      (key : ℕ) (value : V) (m : Map V) → IsSorted m → IsSorted (change (add key value) m)
  unfolding change map_add
  add-IsSorted key value m w = elim (Option-cases (find key m)) [
    | inl h ↦ rw h (insert-IsSorted key value m w)
    | inr (v, h) ↦ rw h w
  ]

  change-IsSorted : (c : Call V) (m : Map V) → IsSorted m → IsSorted (change c m)
  unfolding change map_reset
  change-IsSorted (add key value) m w = add-IsSorted key value m w
  change-IsSorted (at_key key) m w =
      subst IsSorted (sym (at_key-add key m)) (add-IsSorted key initial m w)
  change-IsSorted reset m w = tt

  changes-IsSorted : (cs : List (Call V)) (m : Map V) → IsSorted m → IsSorted (changes cs m)
  unfolding changes
  changes-IsSorted [] m w = w
  changes-IsSorted (c ∷ rest) m w = changes-IsSorted rest (change c m) (change-IsSorted c m w)

-- The value of a key after calls that found `o` there: the first one that was given.
abbrev first_of : {V : Type 0} → Option V → V → Option V
first_of none v = some v
first_of (some w) v = some w

module _ {V : Type 0} (initial : V) (k : ℕ) where
  unfoldable pub recorded : List (Call V) → Option V → Option V
  recorded [] o = o
  recorded (add key v ∷ rest) o =
      let next = if key == k then first_of o v else o in recorded rest next
  recorded (at_key key ∷ rest) o =
      let next = if key == k then first_of o initial else o in recorded rest next
  recorded (reset ∷ rest) o = recorded rest none

  find-add :
      (key : ℕ) (v : V) (m : Map V)
      → find k (change initial (add key v) m)
        ≡ (if key == k then first_of (find k m) v else find k m)
  unfolding change map_add
  find-add key v m = elim (Option-cases (find key m)) [
    | inl h ↦ elim (Bool-cases (key == k)) [
      | inl p ↦
          let q : key ≡ k = ground arith in
          let h' : find k m ≡ none = subst (λ j. find j m ≡ none) q h in
          rw (change, map_add, h, find-insert key k v m h, p, h') refl
      | inr p ↦ rw (change, map_add, h, find-insert key k v m h, p) refl
    ]
    | inr (w, h) ↦ elim (Bool-cases (key == k)) [
      | inl p ↦
          let q : key ≡ k = ground arith in
          let h' : find k m ≡ some w = subst (λ j. find j m ≡ some w) q h in
          rw (change, map_add, h, p, h') refl
      | inr p ↦ rw (change, map_add, h, p) refl
    ]
  ]

  find-changes :
      (cs : List (Call V)) (m : Map V) → find k (changes initial cs m) ≡ recorded cs (find k m)
  unfolding changes recorded change map_reset find
  find-changes [] m = refl
  find-changes (add key v ∷ rest) m =
      find-changes rest (change initial (add key v) m) ∙ ap (recorded rest) (find-add key v m)
  find-changes (at_key key ∷ rest) m =
      find-changes rest (change initial (at_key key) m)
      ∙ ap (recorded rest) (ap (find k) (at_key-add initial key m) ∙ find-add key initial m)
  find-changes (reset ∷ rest) m = find-changes rest []

-- Whether a number stands in a list.
unfoldable pub stands_in : ℕ → List ℕ → Bool
stands_in k [] = false
stands_in k (x ∷ xs) = if x == k then true else stands_in k xs

-- All numbers are above `n` and ascend.
abbrev AscendsAbove : ℕ → List ℕ → Type 0
AscendsAbove n [] = Unit
AscendsAbove n (x ∷ xs) = (n < x) × AscendsAbove x xs

abbrev pub IsAscending : List ℕ → Type 0
IsAscending [] = Unit
IsAscending (x ∷ xs) = AscendsAbove x xs

module _ {V : Type 0} where
  add_keys-keys : (m : Map V) (out : List ℕ) → add_keys m out ≡ out ++ keys m
  unfolding add_keys array_add keys
  add_keys-keys [] out = sym (append-nil out)
  add_keys-keys ((k, v) ∷ m) out =
      add_keys-keys m (out ++ k ∷ []) ∙ append_assoc out (k ∷ []) (keys m)

  length-keys : (m : Map V) → length (keys m) ≡ length m
  unfolding keys
  length-keys [] = refl
  length-keys ((k, v) ∷ m) = omega (arith, length-keys m)

  stands_in-keys : (k : ℕ) (m : Map V) → map_contains k m ≡ stands_in k (keys m)
  unfolding map_contains stands_in keys find
  stands_in-keys k [] = refl
  stands_in-keys k ((j, v) ∷ m) = elim (Bool-cases (j == k)) [
    | inl h ↦ rw h refl
    | inr h ↦ rw h (stands_in-keys k m)
  ]

  keys-AscendsAbove : (n : ℕ) (m : Map V) → Above n m → AscendsAbove n (keys m)
  unfolding keys
  keys-AscendsAbove n [] w = tt
  keys-AscendsAbove n ((k, v) ∷ m) (h, w) = (h, keys-AscendsAbove k m w)

  keys-IsAscending : (m : Map V) → IsSorted m → IsAscending (keys m)
  unfolding keys
  keys-IsAscending [] w = tt
  keys-IsAscending ((k, v) ∷ m) w = keys-AscendsAbove k m w

-- What `GetKeys` gives after calls on an empty map, whatever was in the array, and what the map
-- holds.
abbrev pub KeysOutcome : {V : Type 0} → V → List (Call V) → List ℕ → Type 0
KeysOutcome initial cs out =
    let m = changes initial cs [] in
    (ks : List ℕ) × (map_get_keys m out ≡ done (map_num m, ks))
    × IsAscending ks
    × (length ks ≡ length m)
    × ((k : ℕ) → (map_contains k m ≡ stands_in k ks) × (find k m ≡ recorded initial k cs none))

module _ {V : Type 0} (initial : V) where
  -- After any calls of Add, operator[] and Reset on an empty TMap, GetKeys returns the number of
  -- keys and fills the array with exactly the keys that Contains finds, in ascending order; each
  -- key has the value that it was given first since the last Reset.
  pub get_keys-changes : (cs : List (Call V)) (out : List ℕ) → KeysOutcome initial cs out
  unfolding map_get_keys array_reset map_num find
  get_keys-changes cs out =
      let m = changes initial cs [] in
      (
        keys m,
        ap (λ l. done (to_int32 (length m), l)) (add_keys-keys m []),
        keys-IsAscending m (changes-IsSorted initial cs [] tt),
        length-keys m,
        λ k. (stands_in-keys k m, find-changes initial k cs []),
      )
