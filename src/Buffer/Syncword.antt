-- ===== src/Buffer/Syncword.antt =====
-- `BufferBufferSyncword`: the first place of the syncword, short of the last four bytes.
use septem_cpp.Common.{
  ℕ, zero, suc, ◌+◌, ◌-◌, ◌≤◌, ◌<◌, ◌≡◌, ◌⊎◌, inl, inr, refl, sym, ap, ◌∙◌, List, ◌==◌, ==_iff,
  Bool-cases, length, take, drop, Access, done, ◌>>=◌, read, read-done, le_value, arith,
}
use septem_cpp.Common.Int.{ℤ, pos, negsuc}
use septem_cpp.Buffer.{syncword_loop, buffer_buffer_syncword}

-- The four bytes from `i` on are the syncword.
abbrev pub SyncwordAt : List ℕ → ℕ → ℕ → Type 0
SyncwordAt buffer syncword i = le_value (take 4 (drop i buffer)) ≡ syncword

-- `r` is the first place below `end` where the syncword stands, or -1 where there is none.
abbrev pub IsFirstSyncword : List ℕ → ℕ → ℕ → ℕ → ℤ → Type 0
IsFirstSyncword buffer syncword start end r =
    ((i : ℕ) × (r ≡ pos i)
      × (start ≤ i)
      × (i < end)
      × SyncwordAt buffer syncword i
      × ((j : ℕ) → start ≤ j → j < i → ¬ SyncwordAt buffer syncword j))
    ⊎ ((r ≡ negsuc 0) × ((j : ℕ) → start ≤ j → j < end → ¬ SyncwordAt buffer syncword j))

module _ (buffer : List ℕ) (syncword : ℕ) where
  abbrev Finds : ℕ → ℕ → Access ℤ → Type 0
  Finds start end result = (r : ℤ) × (result ≡ done r) × IsFirstSyncword buffer syncword start end r

  Finds-miss :
      (start end : ℕ) {result : Access ℤ}
      → ¬ SyncwordAt buffer syncword start
      → Finds (start + 1) end result
      → Finds start end result
  Finds-miss start end miss (r, e, inl (i, at, lo, hi, hit, first)) =
      (r, e, inl (i, at, omega arith, hi, hit, λ j p q. before j (omega arith) q))
    where
      before : (j : ℕ) → (j ≡ start) ⊎ (start + 1 ≤ j) → j < i → ¬ SyncwordAt buffer syncword j
      before j (inl same) q h = miss (ap (λ k. le_value (take 4 (drop k buffer))) (sym same) ∙ h)
      before j (inr more) q h = first j more q h
  Finds-miss start end miss (r, e, inr (neg, none)) =
      (r, e, inr (neg, λ j p q. before j (omega arith) q))
    where
      before : (j : ℕ) → (j ≡ start) ⊎ (start + 1 ≤ j) → j < end → ¬ SyncwordAt buffer syncword j
      before j (inl same) q h = miss (ap (λ k. le_value (take 4 (drop k buffer))) (sym same) ∙ h)
      before j (inr more) q h = none j more q h

  syncword_loop-Finds :
      (left index end : ℕ)
      → index + left ≡ end
      → end + 4 ≤ length buffer ⊎ (left ≡ 0)
      → Finds index end (syncword_loop buffer syncword left index)
  unfolding syncword_loop
  syncword_loop-Finds zero index end e h =
      (negsuc 0, refl, inr (refl, λ j p q. absurd (omega arith)))
  syncword_loop-Finds (suc left) index end e h = elim (Bool-cases (word == syncword)) [
    | inl hit ↦ (
      pos index,
      rw (reads, ◌>>=◌, hit),
      inl (
        index,
        refl,
        omega arith,
        omega arith,
        (==_iff word syncword).0 hit,
        λ j p q. absurd (omega arith),
      ),
    )
    | inr miss ↦
        rw (reads, ◌>>=◌, miss)
          (Finds-miss index end (λ eq. let t = (==_iff word syncword).1 eq in cc)
            (syncword_loop-Finds left (index + 1) end (omega arith) (omega arith)))
  ]
    where
      word : ℕ
      word = le_value (take 4 (drop index buffer))

      reads : read buffer index 4 ≡ done (take 4 (drop index buffer))
      reads = read-done buffer index 4 (omega arith)

-- For a size within the buffer, `BufferBufferSyncword` reads nothing out of range. It returns the
-- first of the indices below `size - 4` at which the four bytes are the syncword, or -1 where there
-- is none there.
pub buffer_buffer_syncword-IsFirst :
    (buffer : List ℕ) (size syncword : ℕ)
    → size ≤ length buffer
    → (r : ℤ) × (buffer_buffer_syncword buffer size syncword ≡ done r)
      × IsFirstSyncword buffer syncword 0 (size - 4) r
buffer_buffer_syncword-IsFirst buffer size syncword h =
    unfold buffer_buffer_syncword in
    syncword_loop-Finds buffer syncword (size - 4) 0 (size - 4) (omega arith) (omega arith)
