-- ===== src/Packet/Found.antt =====
-- The search for the syncword of a head that stands in a buffer.
use septem_cpp.Common.{
  ℕ, ◌+◌, ◌-◌, ◌≤◌, ◌<◌, ◌≡◌, ◌⊎◌, inl, inr, ap, ◌∙◌, List, ◌++◌, length, length-append, done,
  arith,
}
use septem_cpp.Common.Int.{ℤ, pos}
use septem_cpp.Buffer.{buffer_buffer_syncword}
use septem_cpp.Buffer.Syncword.{buffer_buffer_syncword-IsFirst, IsFirstSyncword, SyncwordAt}
use septem_cpp.Wire.Head
use septem_cpp.Wire.Head.{Head as HeadStruct}
use septem_cpp.Wire.Image.{IsHead, length-head, syncword-to_bytes}

-- A head behind `g`, where its syncword does not occur earlier, is found.
module _ (h : HeadStruct) (v : IsHead h) (g rest : List ℕ) where
  abbrev wire : List ℕ
  wire = g ++ (Head.to_bytes h ++ rest)

  length-wire : length wire ≡ length g + (16 + length rest)
  length-wire = omega (
    arith,
    length-append g (Head.to_bytes h ++ rest),
    length-append (Head.to_bytes h) rest,
    length-head h,
  )

  pub head_found :
      8 ≤ length rest
      → ((j : ℕ) → j < length g → ¬ SyncwordAt wire h.syncword j)
      → buffer_buffer_syncword wire (length wire) h.syncword ≡ done (pos (length g))
  head_found behind first = elim which [
    | inr (neg, nowhere) ↦
        absurd (nowhere (length g) (omega arith) (omega (arith, length-wire)) hit)
    | inl (i, at, lo, hi, there, before) ↦
        search ∙ ap done (at ∙ ap pos (same i there before (order i)))
  ]
    where
      hit : SyncwordAt wire h.syncword (length g)
      hit = syncword-to_bytes h g rest v

      found :
          (r : ℤ) × (buffer_buffer_syncword wire (length wire) h.syncword ≡ done r)
          × IsFirstSyncword wire h.syncword 0 (length wire - 4) r
      found = buffer_buffer_syncword-IsFirst wire (length wire) h.syncword (omega arith)

      search : buffer_buffer_syncword wire (length wire) h.syncword ≡ done found.0
      search = found.1

      which : IsFirstSyncword wire h.syncword 0 (length wire - 4) found.0
      which = found.2

      order : (i : ℕ) → (i < length g) ⊎ (i ≡ length g) ⊎ (length g < i)
      order i = omega arith

      same :
          (i : ℕ)
          → SyncwordAt wire h.syncword i
          → ((j : ℕ) → 0 ≤ j → j < i → ¬ SyncwordAt wire h.syncword j)
          → (i < length g) ⊎ (i ≡ length g) ⊎ (length g < i)
          → i ≡ length g
      same i there before (inl earlier) = absurd (first i earlier there)
      same i there before (inr (inl e)) = e
      same i there before (inr (inr later)) = absurd (before (length g) (omega arith) later hit)
