-- ===== src/Graph/Codec/Order.antt =====
-- Edge maps in ascending order: every entry is found, and entries that are inserted in order go to
-- the end.
use septem_cpp.Common.{ℕ, suc, length, ◌<◌, ◌≡◌, refl, ap, List, [], ◌∷◌, ◌++◌, none, some, arith}
use septem_cpp.Graph.EdgeMap.{find, insert, keys, Above, IsSorted}

module _ {ℓ} {V : Type ℓ} where
  -- The values, in the order of iteration.
  abbrev pub values : List (ℕ × V) → List V
  values [] = []
  values ((k, v) ∷ m) = v ∷ values m

  pub length-keys : (m : List (ℕ × V)) → length (keys m) ≡ length m
  unfolding keys
  length-keys [] = refl
  length-keys ((k, v) ∷ m) = ap suc (length-keys m)

  pub length-values : (m : List (ℕ × V)) → length (values m) ≡ length m
  length-values [] = refl
  length-values ((k, v) ∷ m) = ap suc (length-values m)

  -- Every entry of the first map is what the second one has under its key.
  abbrev pub IsWithin : List (ℕ × V) → List (ℕ × V) → Type ℓ
  IsWithin [] full = Unit
  IsWithin ((k, v) ∷ m) full = (find k full ≡ some v) × IsWithin m full

  Above-lower : (j k : ℕ) (m : List (ℕ × V)) → j < k → Above k m → Above j m
  Above-lower j k [] h a = tt
  Above-lower j k ((i, v) ∷ m) h (a, b) = (omega arith, b)

  Above-IsWithin :
      (j : ℕ) (w : V) (m full : List (ℕ × V))
      → Above j m
      → IsWithin m full
      → IsWithin m ((j, w) ∷ full)
  unfolding find
  Above-IsWithin j w [] full a h = tt
  Above-IsWithin j w ((k, v) ∷ m) full (a, b) (h, hs) =
      (ground (arith, a, h), Above-IsWithin j w m full (Above-lower j k m a b) hs)

  pub Above-IsSorted : (k : ℕ) (m : List (ℕ × V)) → Above k m → IsSorted m
  Above-IsSorted k [] h = tt
  Above-IsSorted k ((j, v) ∷ m) (a, b) = b

  pub IsSorted-IsWithin : (m : List (ℕ × V)) → IsSorted m → IsWithin m m
  unfolding find
  IsSorted-IsWithin [] h = tt
  IsSorted-IsWithin ((k, v) ∷ m) h =
      (ground arith, Above-IsWithin k v m m h (IsSorted-IsWithin m (Above-IsSorted k m h)))

  -- The first entry behind a map in order: its key is not in the map, and it goes to the end.
  Above-last :
      (n k : ℕ) (v : V) (acc m : List (ℕ × V))
      → Above n (acc ++ (k, v) ∷ m)
      → (n < k) × (find k acc ≡ none) × (insert k v acc ≡ acc ++ (k, v) ∷ [])
  unfolding find insert
  Above-last n k v [] m (a, b) = (a, refl, refl)
  Above-last n k v ((j, w) ∷ acc) m (a, b) =
      let (c, d, e) = Above-last j k v acc m b in (omega arith, ground arith, ground arith)

  pub insert_last :
      (k : ℕ) (v : V) (acc m : List (ℕ × V))
      → IsSorted (acc ++ (k, v) ∷ m)
      → (find k acc ≡ none) × (insert k v acc ≡ acc ++ (k, v) ∷ [])
  unfolding find insert
  insert_last k v [] m h = (refl, refl)
  insert_last k v ((j, w) ∷ acc) m h =
      let (c, d, e) = Above-last j k v acc m h in (ground arith, ground arith)
