-- ===== src/Buffer/State.antt =====
-- The states of the search, and what its last one says.
use septem_cpp.Common.{
  ℕ, zero, suc, ◌+◌, ◌-◌, ◌≤◌, ◌<◌, ◌≡◌, ◌≢◌, ◌⊎◌, inl, inr, refl, ap, ◌∙◌, List, true, false,
  lt→ltb, ==_iff, length, arith,
}
use septem_cpp.Common.Int.{ℤ, pos, negsuc}
use septem_cpp.Buffer.{lt_size, eq_size, search_result}
use septem_cpp.Buffer.Match.{
  at, Match, from_minus_one, prev, IsFail, Match-zero, Match-suc, Match-le, Match-trans,
  Match-overlap,
}

-- The whole pattern stands in the first `m` elements of the text from `s` on.
abbrev pub OccursAt : List ℕ → ℕ → List ℕ → ℕ → ℕ → Type 0
OccursAt text m pattern n s = (s + n ≤ m) × Match text pattern s n

-- `r` is the first occurrence, or -1 and there is none.
abbrev pub IsFirst : List ℕ → ℕ → List ℕ → ℕ → ℤ → Type 0
IsFirst text m pattern n r =
    ((s : ℕ) × (r ≡ pos s)
      × OccursAt text m pattern n s
      × ((s' : ℕ) → s' < s → ¬ OccursAt text m pattern n s'))
    ⊎ ((r ≡ negsuc 0) × ((s : ℕ) → ¬ OccursAt text m pattern n s))

module _ (text pattern : List ℕ) (n : ℕ) where
  -- At `i` in the text, `c`, counted from -1, elements of the pattern stand just before `i`, and no
  -- occurrence starts further back.
  pub record IsState (i c : ℕ) : Type 0 where
    pub below : c ≤ i + 1
    pub sound : (s : ℕ) → s + prev c ≡ i → Match text pattern s (prev c)
    pub none_before : (s k : ℕ) → s + k ≡ i → c ≤ k → ¬ Match text pattern s n

  pub start-IsState : 0 < n → IsState 0 1
  start-IsState p = record {
    below = omega arith;
    sound = λ s e. Match-zero text pattern s;
    none_before = λ s k e h m. absurd (omega arith);
  }

  pub advance :
      (i c : ℕ) → IsState i c → (0 < c → at text i ≡ at pattern (prev c)) → IsState (i + 1) (suc c)
  advance i c v same = record {
    below = let b = v.below in omega arith;
    sound = grown c v same;
    none_before = older;
  }
    where
      grown :
          (c : ℕ)
          → IsState i c
          → (0 < c → at text i ≡ at pattern (prev c))
          → (s : ℕ) → s + c ≡ i + 1
          → Match text pattern s c
      grown zero w eq s e = Match-zero text pattern s
      grown (suc k) w eq s e =
          Match-suc text pattern s k i (omega arith) (eq (omega arith)) (w.sound s (omega arith))

      older : (s k : ℕ) → s + k ≡ i + 1 → suc c ≤ k → ¬ Match text pattern s n
      older s zero e h m = absurd (omega arith)
      older s (suc k) e h m = v.none_before s k (omega arith) (omega arith) m

  pub retreat :
      (i j f : ℕ)
      → j < n
      → IsState i (suc j)
      → at text i ≢ at pattern j
      → IsFail pattern j f
      → IsState i f
  retreat i j f lt v differ e = record {
    below = let a = v.below in let b = e.below in omega arith;
    sound = shorter f e;
    none_before = λ s k q h m. rest s k q h m (order k);
  }
    where
      order : (k : ℕ) → (j < k) ⊎ (k ≡ j) ⊎ (k < j)
      order k = omega arith

      fits : j ≤ i
      fits = let b = v.below in omega arith

      shorter :
          (f : ℕ) → IsFail pattern j f → (s : ℕ) → s + prev f ≡ i → Match text pattern s (prev f)
      shorter zero w s q = Match-zero text pattern s
      shorter (suc k) w s q =
          let b = w.below in
          Match-trans text pattern (i - j) j (j - k) k s (omega arith) (omega arith)
            (v.sound (i - j) (omega arith)) (w.sound (j - k) (omega arith) (omega arith)).0

      rest :
          (s k : ℕ) → s + k ≡ i → f ≤ k → Match text pattern s n → (j < k) ⊎ (k ≡ j) ⊎ (k < j) → ⊥
      rest s k q h m (inl longer) = v.none_before s k q longer m
      rest s k q h m (inr (inl same)) = differ (
          ap (at text) (let e' : i ≡ s + k = omega arith in e')
          ∙ m k (omega arith)
          ∙ ap (at pattern) same)
      rest s k q h m (inr (inr less)) =
          let inner : Match pattern pattern (j - k) k =
            Match-overlap text pattern (i - j) j (j - k) k s (omega arith) (omega arith)
              (v.sound (i - j) (omega arith)) (Match-le text pattern s n k (omega arith) m) in
          differ (
            ap (at text) (let e' : i ≡ s + k = omega arith in e')
            ∙ m k (omega arith)
            ∙ e.best (j - k) k (omega arith) (omega arith) h inner)

  -- The state in which the loop ends: with `n` elements matched, or at the end of the text.
  abbrev pub IsLast : ℕ → ℕ × ℤ → Type 0
  IsLast m (i, j) =
      (i ≤ m)
      × ((j ≡ pos n) × IsState i (suc n)
          ⊎ ((i ≡ m) × (c : ℕ) × (j ≡ from_minus_one c) × (c ≤ n) × IsState i c))

  eq_size-false : (c : ℕ) → c ≤ n → eq_size n (from_minus_one c) ≡ false
  eq_size-false zero h = refl
  eq_size-false (suc k) h = ground arith

  pub search_result_lem :
      (m : ℕ) (last : ℕ × ℤ) → IsLast m last → IsFirst text m pattern n (search_result n last)
  unfolding search_result
  search_result_lem m (i, j) (im, inl (e, v)) =
      let b = v.below in
      inl (
        i - n,
        rw (e, (==_iff n n).1 refl),
        (omega arith, v.sound (i - n) (omega arith)),
        λ s h o. v.none_before s (i - s) (omega arith) (omega arith) o.1,
      )
  search_result_lem m (i, j) (im, inr (stop, c, e, part, v)) = inr (
    rw (e, eq_size-false c part),
    λ s o. let q = o.0 in v.none_before s (i - s) (omega arith) (omega arith) o.1,
  )

  pub prev_lt : n ≤ length pattern → 0 < n → (c : ℕ) → c ≤ n → prev c < length pattern
  prev_lt fits p zero h = omega arith
  prev_lt fits p (suc k) h = omega arith

  pub lt_size-true : (c : ℕ) → c ≤ n → lt_size (from_minus_one c) n ≡ true
  lt_size-true zero h = refl
  lt_size-true (suc k) h = lt→ltb k n h
