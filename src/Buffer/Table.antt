-- ===== src/Buffer/Table.antt =====
-- The table of `BufferFailArray`, entry by entry.
use septem_cpp.Common.{
  ℕ, zero, suc, ◌+◌, ◌≤◌, ◌<◌, ◌≡◌, ◌≢◌, ◌⊎◌, inl, inr, refl, ap, ◌∙◌, List, true, false, ◌==◌,
  ==_iff, Bool-cases, length, set, get_or, get, get-done, length-set, get_or-set_self,
  get_or-set_ne, done, arith,
}
use septem_cpp.Common.Int.{ℤ, pos}
use septem_cpp.Buffer.{inc, restart_or_equal, fail_entry}
use septem_cpp.Buffer.Match.{at, from_minus_one, prev, IsFail}
use septem_cpp.Buffer.Border.{IsLongest, entry_skip, entry_stop}

abbrev pub entry_at : List ℤ → ℕ → ℤ
entry_at fail j = get_or fail j (pos 0)

-- The entries below `n` are right.
pub record IsTable (pattern : List ℕ) (fail : List ℤ) (n : ℕ) : Type 0 where
  pub room : n ≤ length fail
  pub entries :
      (j : ℕ) → j < n → (f : ℕ) × (entry_at fail j ≡ from_minus_one f) × IsFail pattern j f

pub inc-from_minus_one : (c : ℕ) → inc (from_minus_one c) ≡ pos c
inc-from_minus_one zero = refl
inc-from_minus_one (suc c) = refl

-- The test of a round: a restart, or a comparison of two elements in range.
pub restart_or_equal_lem :
    (xs : List ℕ) (i : ℕ) (ys : List ℕ) (c : ℕ)
    → i < length xs
    → prev c < length ys
    → ((restart_or_equal xs i ys (from_minus_one c) ≡ done true)
        × (0 < c → at xs i ≡ at ys (prev c)))
      ⊎ ((restart_or_equal xs i ys (from_minus_one c) ≡ done false)
          × (0 < c)
          × (at xs i ≢ at ys (prev c)))
unfolding restart_or_equal
restart_or_equal_lem xs i ys zero h k = inl (refl, λ p. absurd (omega arith))
restart_or_equal_lem xs i ys (suc n) h k = elim (Bool-cases (at xs i == at ys n)) [
  | inl same ↦
      inl (rw (get-done xs i 0 h, get-done ys n 0 k) (ap done same), λ p. (==_iff _ _).0 same)
  | inr differ ↦ inr (
    rw (get-done xs i 0 h, get-done ys n 0 k) (ap done differ),
    omega arith,
    λ e. let t = (==_iff (at xs i) (at ys n)).1 e in cc,
  )
]

module _ (pattern : List ℕ) (len : ℕ) (fits : len ≤ length pattern) where
  -- The value stored for the new index `i` is the right one.
  pub fail_entry_lem :
      (fail : List ℤ) (i k : ℕ)
      → i < len
      → IsTable pattern fail i
      → IsLongest pattern i k
      → (f : ℕ) × (fail_entry pattern fail i (pos k) ≡ done (from_minus_one f)) × IsFail pattern i f
  unfolding fail_entry
  fail_entry_lem fail i k h t l = elim (Bool-cases (at pattern i == at pattern k)) [
    | inl same ↦ (
      old.0,
      rw (read_i, read_k, same)
          (get-done fail k (pos 0) (let r = t.room in omega arith) ∙ ap done old.1),
      entry_skip pattern i k old.0 l ((==_iff _ _).0 same) old.2,
    )
    | inr differ ↦ (
      suc k,
      rw (read_i, read_k, differ),
      entry_stop pattern i k l (λ e. let b = (==_iff (at pattern i) (at pattern k)).1 e in cc),
    )
  ]
    where
      below : k < i
      below = l.below

      read_i : get pattern i ≡ done (at pattern i)
      read_i = get-done pattern i 0 (omega arith)

      read_k : get pattern k ≡ done (at pattern k)
      read_k = get-done pattern k 0 (omega arith)

      old : (f : ℕ) × (entry_at fail k ≡ from_minus_one f) × IsFail pattern k f
      old = t.entries k below

  pub IsTable-set :
      (fail : List ℤ) (i f : ℕ)
      → i < length fail
      → IsTable pattern fail i
      → IsFail pattern i f
      → IsTable pattern (set fail i (from_minus_one f)) (i + 1)
  IsTable-set fail i f h t e = record {
    room = let r = length-set fail i (from_minus_one f) in omega arith;
    entries = λ j p. entry j (split j p);
  }
    where
      split : (j : ℕ) → j < i + 1 → (j < i) ⊎ (j ≡ i)
      split j p = omega arith

      entry :
          (j : ℕ)
          → (j < i) ⊎ (j ≡ i)
          → (g : ℕ) × (entry_at (set fail i (from_minus_one f)) j ≡ from_minus_one g)
            × IsFail pattern j g
      entry j (inl less) =
          let old = t.entries j less in
          (
            old.0,
            get_or-set_ne fail i j (from_minus_one f) (pos 0) (λ eq. omega arith) ∙ old.1,
            old.2,
          )
      entry j (inr same) = rw same (f, get_or-set_self fail i (from_minus_one f) (pos 0) h, e)
