-- ===== src/Buffer/Match.antt =====
-- What the searches of SeptemBuffer.h look for: occurrences of a prefix of the pattern, and the
-- values that the fail array should hold.
use septem_cpp.Common.{
  ℕ, zero, suc, ◌+◌, ◌≤◌, ◌<◌, ◌≡◌, ◌≢◌, ◌⊎◌, inl, inr, sym, ap, ◌∙◌, List, get_or, arith,
}
use septem_cpp.Common.Int.{ℤ, pos, negsuc}

abbrev pub at : List ℕ → ℕ → ℕ
at xs i = get_or xs i 0

-- The first `k` elements of `pattern` stand in `text` from `s` on.
abbrev pub Match : List ℕ → List ℕ → ℕ → ℕ → Type 0
Match text pattern s k = (d : ℕ) → d < k → at text (s + d) ≡ at pattern d

-- An `int32` that is -1 or more, counted from -1.
abbrev pub from_minus_one : ℕ → ℤ
from_minus_one zero = negsuc 0
from_minus_one (suc n) = pos n

-- The number that such a value stands for, where it is not -1.
abbrev pub prev : ℕ → ℕ
prev zero = zero
prev (suc n) = n

at_eq : (xs : List ℕ) {i j : ℕ} → i ≡ j → at xs i ≡ at xs j
at_eq xs e = ap (at xs) e

module _ (text pattern : List ℕ) where
  pub Match-zero : (s : ℕ) → Match text pattern s 0
  Match-zero s d h = elim h [ ]

  pub Match-suc :
      (s k i : ℕ)
      → s + k ≡ i
      → at text i ≡ at pattern k
      → Match text pattern s k
      → Match text pattern s (suc k)
  Match-suc s k i e same m d h = elim (split d h) [
    | inl lower ↦ m d lower
    | inr last ↦
        at_eq text (let e' : s + d ≡ i = omega arith in e') ∙ same ∙ at_eq pattern (sym last)
  ]
    where
      split : (d : ℕ) → d < suc k → (d < k) ⊎ (d ≡ k)
      split d h = omega arith

  pub Match-le : (s j k : ℕ) → k ≤ j → Match text pattern s j → Match text pattern s k
  Match-le s j k h m d p = m d (omega arith)

  -- A shorter prefix inside a longer one.
  pub Match-trans :
      (s j t k r : ℕ)
      → t + k ≤ j
      → s + t ≡ r
      → Match text pattern s j
      → Match pattern pattern t k
      → Match text pattern r k
  Match-trans s j t k r h e m b d p =
      at_eq text (let e' : r + d ≡ s + (t + d) = omega arith in e')
      ∙ m (t + d) (omega arith)
      ∙ b d p

  -- Where two prefixes overlap in the text, the shorter one is inside the longer one.
  pub Match-overlap :
      (s j t k r : ℕ)
      → t + k ≤ j
      → s + t ≡ r
      → Match text pattern s j
      → Match text pattern r k
      → Match pattern pattern t k
  Match-overlap s j t k r h e m b d p =
      sym (m (t + d) (omega arith))
      ∙ at_eq text (let e' : s + (t + d) ≡ r + d = omega arith in e')
      ∙ b d p

-- `f`, counted from -1, is what `fail[j]` should be: the longest proper border of the first `j`
-- elements whose next element differs from the element at `j`, or -1 where there is none.
pub record IsFail (pattern : List ℕ) (j f : ℕ) : Type 0 where
  pub below : f ≤ j
  pub sound :
      (t : ℕ)
      → 0 < f
      → t + prev f ≡ j
      → Match pattern pattern t (prev f) × (at pattern (prev f) ≢ at pattern j)
  pub best :
      (t k : ℕ)
      → t + k ≡ j
      → 0 < t
      → f ≤ k
      → Match pattern pattern t k
      → at pattern k ≡ at pattern j
