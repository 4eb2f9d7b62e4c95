-- ===== src/Buffer/Border.antt =====
-- Why `BufferFailArray` keeps the right index: the longest border of a prefix, as the index moves
-- on by a match or falls back by a mismatch.
use septem_cpp.Common.{
  ℕ, zero, suc, ◌+◌, ◌-◌, ◌≤◌, ◌<◌, ◌≡◌, ◌≢◌, ◌⊎◌, inl, inr, sym, ap, ◌∙◌, List, arith,
}
use septem_cpp.Buffer.Match.{
  at, Match, prev, IsFail, Match-zero, Match-suc, Match-le, Match-trans, Match-overlap,
}

module _ (pattern : List ℕ) where
  -- `c`, counted from -1, is a border of the first `i` elements, and no longer border can be
  -- extended by the element at `i`.
  pub record IsCandidate (i c : ℕ) : Type 0 where
    pub below : c ≤ i
    pub sound : (t : ℕ) → t + prev c ≡ i → Match pattern pattern t (prev c)
    pub best :
        (t k : ℕ)
        → t + k ≡ i
        → 0 < t
        → c ≤ k
        → Match pattern pattern t k
        → at pattern k ≢ at pattern i

  -- `k` is the longest proper border of the first `i` elements.
  pub record IsLongest (i k : ℕ) : Type 0 where
    pub below : k < i
    pub sound : (t : ℕ) → t + k ≡ i → Match pattern pattern t k
    pub best : (t j : ℕ) → t + j ≡ i → 0 < t → k < j → ¬ Match pattern pattern t j

  pub IsLongest-IsCandidate : (i k : ℕ) → IsLongest i k → IsCandidate i (suc k)
  IsLongest-IsCandidate i k l = record {
    below = l.below;
    sound = l.sound;
    best = λ t j e p h m. absurd (l.best t j e p h m);
  }

  pub start-IsCandidate : IsCandidate 0 0
  start-IsCandidate = record {
    below = omega arith;
    sound = λ t e. Match-zero pattern pattern t;
    best = λ t k e p h m. absurd (omega arith);
  }

  -- After a match the candidate is one longer.
  pub advance :
      (i c : ℕ)
      → IsCandidate i c
      → (0 < c → at pattern i ≡ at pattern (prev c))
      → IsLongest (i + 1) c
  advance i c v same = record {
    below = let b = v.below in omega arith;
    sound = grown c v same;
    best = longest;
  }
    where
      grown :
          (c : ℕ)
          → IsCandidate i c
          → (0 < c → at pattern i ≡ at pattern (prev c))
          → (t : ℕ) → t + c ≡ i + 1
          → Match pattern pattern t c
      grown zero w eq t e = Match-zero pattern pattern t
      grown (suc k) w eq t e =
          Match-suc pattern pattern t k i (omega arith) (eq (omega arith)) (w.sound t (omega arith))

      longest : (t j : ℕ) → t + j ≡ i + 1 → 0 < t → c < j → ¬ Match pattern pattern t j
      longest t zero e p h m = absurd (omega arith)
      longest t (suc j) e p h m =
          v.best t j (omega arith) p (omega arith)
            (Match-le pattern pattern t (suc j) j (omega arith) m)
            (sym (m j (omega arith)) ∙ ap (at pattern) (let e' : t + j ≡ i = omega arith in e'))

  -- After a mismatch the entry at the candidate is the next one to try.
  pub retreat :
      (i k f : ℕ)
      → IsCandidate i (suc k)
      → at pattern i ≢ at pattern k
      → IsFail pattern k f
      → IsCandidate i f
  retreat i k f v differ e = record {
    below = let a = v.below in let b = e.below in omega arith;
    sound = shorter f e;
    best = λ t j s p h m. rest t j s p h m (order j);
  }
    where
      order : (j : ℕ) → (k < j) ⊎ (j ≡ k) ⊎ (j < k)
      order j = omega arith

      shorter :
          (f : ℕ) → IsFail pattern k f → (t : ℕ) → t + prev f ≡ i → Match pattern pattern t (prev f)
      shorter zero w t s = Match-zero pattern pattern t
      shorter (suc j) w t s =
          let a = v.below in
          let b = w.below in
          Match-trans pattern pattern (i - k) k (k - j) j t (omega arith) (omega arith)
            (v.sound (i - k) (omega arith)) (w.sound (k - j) (omega arith) (omega arith)).0

      rest :
          (t j : ℕ)
          → t + j ≡ i
          → 0 < t
          → f ≤ j
          → Match pattern pattern t j
          → (k < j) ⊎ (j ≡ k) ⊎ (j < k)
          → at pattern j ≢ at pattern i
      rest t j s p h m (inl longer) = v.best t j s p longer m
      rest t j s p h m (inr (inl same)) = λ eq. differ (sym eq ∙ ap (at pattern) same)
      rest t j s p h m (inr (inr less)) =
          let a = v.below in
          λ eq. differ (
            sym eq
            ∙ e.best (k - j) j (omega arith) (omega arith) h (
                Match-overlap pattern pattern (i - k) k (k - j) j t (omega arith) (omega arith)
                  (v.sound (i - k) (omega arith)) m))

  -- The entry for `i` where the element after the longest border `k` is the one at `i`.
  pub entry_skip :
      (i k f : ℕ)
      → IsLongest i k
      → at pattern i ≡ at pattern k
      → IsFail pattern k f
      → IsFail pattern i f
  entry_skip i k f l same e = record {
    below = let a = l.below in let b = e.below in omega arith;
    sound = shorter f e;
    best = λ t j s p h m. rest t j s p h m (order j);
  }
    where
      order : (j : ℕ) → (k < j) ⊎ (j ≡ k) ⊎ (j < k)
      order j = omega arith

      shorter :
          (f : ℕ)
          → IsFail pattern k f
          → (t : ℕ) → 0 < f
          → t + prev f ≡ i
          → Match pattern pattern t (prev f) × (at pattern (prev f) ≢ at pattern i)
      shorter zero w t p s = absurd (omega arith)
      shorter (suc j) w t p s =
          let a = l.below in
          let b = w.below in
          let inner = w.sound (k - j) (omega arith) (omega arith) in
          (
            Match-trans pattern pattern (i - k) k (k - j) j t (omega arith) (omega arith)
                (l.sound (i - k) (omega arith)) inner.0,
            λ eq. inner.1 (eq ∙ same),
          )

      rest :
          (t j : ℕ)
          → t + j ≡ i
          → 0 < t
          → f ≤ j
          → Match pattern pattern t j
          → (k < j) ⊎ (j ≡ k) ⊎ (j < k)
          → at pattern j ≡ at pattern i
      rest t j s p h m (inl longer) = absurd (l.best t j s p longer m)
      rest t j s p h m (inr (inl eq)) = ap (at pattern) eq ∙ sym same
      rest t j s p h m (inr (inr less)) =
          let a = l.below in
          e.best (k - j) j (omega arith) (omega arith) h (
            Match-overlap pattern pattern (i - k) k (k - j) j t (omega arith) (omega arith)
              (l.sound (i - k) (omega arith)) m)
          ∙ sym same

  -- The entry for `i` where it differs.
  pub entry_stop :
      (i k : ℕ) → IsLongest i k → at pattern i ≢ at pattern k → IsFail pattern i (suc k)
  entry_stop i k l differ = record {
    below = l.below;
    sound = λ t p s. (l.sound t s, λ eq. differ (sym eq));
    best = λ t j s p h m. absurd (l.best t j s p h m);
  }
