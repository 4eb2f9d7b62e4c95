-- ===== src/Graph/EdgeMap.antt =====
-- `std::map` with 64-bit keys, as the graph uses it: an association list in ascending order.
use septem_cpp.Common.{
  ℕ, ◌+◌, ◌<◌, ◌≡◌, refl, ◌∙◌, List, [], ◌∷◌, if◌then◌else◌, ltb, ◌==◌, Option, none, some, length,
  arith,
}

module _ {ℓ} {V : Type ℓ} where
  -- `m.find(k)`, with the value.
  unfoldable pub find : ℕ → List (ℕ × V) → Option V
  find k [] = none
  find k ((j, v) ∷ m) = if j == k then some v else find k m

  -- `m.insert({k, v})`, which keeps what is there.
  unfoldable pub insert : ℕ → V → List (ℕ × V) → List (ℕ × V)
  insert k v [] = (k, v) ∷ []
  insert k v ((j, w) ∷ m) =
      if j == k
      then (j, w) ∷ m
      else if ltb k j
      then (k, v) ∷ ((j, w) ∷ m)
      else (j, w) ∷ insert k v m

  -- `m[k]`, which inserts `d` where there is no `k`.
  unfoldable pub at_or_insert : V → ℕ → List (ℕ × V) → V × List (ℕ × V)
  at_or_insert d k m = elim (find k m) [ some v ↦ (v, m) | none ↦ (d, insert k d m) ]

  -- The keys, in the order of iteration.
  unfoldable pub keys : List (ℕ × V) → List ℕ
  keys [] = []
  keys ((k, v) ∷ m) = k ∷ keys m

  -- All keys are above `n` and ascend.
  abbrev pub Above : ℕ → List (ℕ × V) → Type 0
  Above n [] = Unit {0}
  Above n ((k, v) ∷ m) = (n < k) × Above k m

  -- `IsSorted` for any first key.
  abbrev pub IsSorted : List (ℕ × V) → Type 0
  IsSorted [] = Unit {0}
  IsSorted ((k, v) ∷ m) = Above k m

  pub find-insert :
      (k j : ℕ) (v : V) (m : List (ℕ × V))
      → find k m ≡ none
      → find j (insert k v m) ≡ (if k == j then some v else find j m)
  unfolding find insert
  find-insert k j v [] h = refl
  find-insert k j v ((i, w) ∷ m) h = ground (arith, find-insert k j v m)

  insert-Above : (n k : ℕ) (v : V) (m : List (ℕ × V)) → n < k → Above n m → Above n (insert k v m)
  unfolding insert
  insert-Above n k v [] h a = (h, tt)
  insert-Above n k v ((i, w) ∷ m) h a = ground (arith, insert-Above i k v m)

  pub insert-IsSorted : (k : ℕ) (v : V) (m : List (ℕ × V)) → IsSorted m → IsSorted (insert k v m)
  unfolding insert
  insert-IsSorted k v [] a = tt
  insert-IsSorted k v ((i, w) ∷ m) a = ground (arith, insert-Above i k v m)

  pub length-insert :
      (k : ℕ) (v : V) (m : List (ℕ × V)) → find k m ≡ none → length (insert k v m) ≡ length m + 1
  unfolding find insert
  length-insert k v [] h = omega arith
  length-insert k v ((i, w) ∷ m) h = ground (arith, length-insert k v m)

  pub at_or_insert-found :
      (d : V) (k : ℕ) (v : V) (m : List (ℕ × V)) → find k m ≡ some v → at_or_insert d k m ≡ (v, m)
  unfolding at_or_insert
  at_or_insert-found d k v m h = rw (at_or_insert, h) refl

  pub find-insert_self :
      (k : ℕ) (v : V) (m : List (ℕ × V)) → find k m ≡ none → find k (insert k v m) ≡ some v
  find-insert_self k v m h = find-insert k k v m h ∙ (ground arith)
