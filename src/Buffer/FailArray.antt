-- ===== src/Buffer/FailArray.antt =====
-- `BufferFailArray`: the loop ends, stays inside its arrays and fills the fail array.
use septem_cpp.Common.{
  ℕ, zero, suc, ◌+◌, ◌-◌, ◌*◌, ◌≤◌, ◌<◌, ◌≡◌, ◌≢◌, ◌⊎◌, inl, inr, refl, ◌∙◌, List, true, false, ltb,
  ltb→lt, lt→ltb, Bool-cases, length, set, get-done, put-done, length-set, get_or-set_self, Access,
  done, arith,
}
use septem_cpp.Common.Int.{ℤ, pos, negsuc}
use septem_cpp.Buffer.{restart_or_equal, fail_entry, fail_loop, buffer_fail_array}
use septem_cpp.Buffer.Match.{at, from_minus_one, prev, IsFail}
use septem_cpp.Buffer.Border.{
  IsCandidate, IsLongest-IsCandidate, start-IsCandidate, advance, retreat,
}
use septem_cpp.Buffer.Table.{
  entry_at, IsTable, inc-from_minus_one, restart_or_equal_lem, fail_entry_lem, IsTable-set,
}

module _ (pattern : List ℕ) (len : ℕ) (fits : len ≤ length pattern) where
  abbrev Fills : List ℤ → Access (List ℤ) → Type 0
  Fills fail result =
      (out : List ℤ) × (result ≡ done out) × IsTable pattern out len × (length out ≡ length fail)

  loop_advance :
      (fuel : ℕ) (fail : List ℤ) (i c f : ℕ)
      → i + 1 < len
      → len ≤ length fail
      → restart_or_equal pattern i pattern (from_minus_one c) ≡ done true
      → fail_entry pattern fail (i + 1) (pos c) ≡ done (from_minus_one f)
      → fail_loop pattern len (suc fuel) fail i (from_minus_one c)
        ≡ fail_loop pattern len fuel (set fail (i + 1) (from_minus_one f)) (i + 1) (pos c)
  unfolding fail_loop
  loop_advance fuel fail i c f h r test entry =
      rw
        (
          lt→ltb (i + 1) len h,
          test,
          inc-from_minus_one c,
          entry,
          put-done fail (i + 1) (from_minus_one f) (omega arith),
          fail_loop,
        )
        refl

  loop_retreat :
      (fuel : ℕ) (fail : List ℤ) (i k f : ℕ)
      → i + 1 < len
      → k < length fail
      → restart_or_equal pattern i pattern (pos k) ≡ done false
      → entry_at fail k ≡ from_minus_one f
      → fail_loop pattern len (suc fuel) fail i (pos k)
        ≡ fail_loop pattern len fuel fail i (from_minus_one f)
  unfolding fail_loop
  loop_retreat fuel fail i k f h r test entry =
      rw (lt→ltb (i + 1) len h, test, get-done fail k (pos 0) r, entry, fail_loop) refl

  Fills-set :
      (fail : List ℤ) (i f : ℕ) {result : Access (List ℤ)}
      → Fills (set fail i (from_minus_one f)) result
      → Fills fail result
  Fills-set fail i f (out, eq, t, len_eq) =
      (out, eq, t, len_eq ∙ length-set fail i (from_minus_one f))

  -- With enough fuel the loop fills the table up to `len`.
  fail_loop-Fills :
      (fuel : ℕ) (fail : List ℤ) (i c : ℕ)
      → i < len
      → len ≤ length fail
      → 2 * (len - i) + c < fuel
      → IsTable pattern fail (i + 1)
      → IsCandidate pattern i c
      → Fills fail (fail_loop pattern len fuel fail i (from_minus_one c))
  fail_loop-Fills zero fail i c h r m t v = absurd (omega arith)
  fail_loop-Fills (suc fuel) fail i c h r m t v = elim (Bool-cases (ltb (i + 1) len)) [
    | inr last ↦ (
      fail,
      unfold fail_loop in rw (last, fail_loop),
      record {
        room = r;
        entries = λ j p. t.entries j (let q = lt→ltb (i + 1) len in ground arith);
      },
      refl,
    )
    | inl more ↦
        step c v m
          (restart_or_equal_lem pattern i pattern c (omega arith) (let b = v.below in prev_lt c b))
          (ltb→lt (i + 1) len more) (fail_loop-Fills fuel)
  ]
    where
      prev_lt : (c : ℕ) → c ≤ i → prev c < length pattern
      prev_lt zero b = omega arith
      prev_lt (suc k) b = omega arith

      step :
          (c : ℕ)
          → IsCandidate pattern i c
          → 2 * (len - i) + c < suc fuel
          → ((restart_or_equal pattern i pattern (from_minus_one c) ≡ done true)
              × (0 < c → at pattern i ≡ at pattern (prev c)))
            ⊎ ((restart_or_equal pattern i pattern (from_minus_one c) ≡ done false)
                × (0 < c)
                × (at pattern i ≢ at pattern (prev c)))
          → i + 1 < len
          → ((fail : List ℤ) (i c : ℕ)
              → i < len
              → len ≤ length fail
              → 2 * (len - i) + c < fuel
              → IsTable pattern fail (i + 1)
              → IsCandidate pattern i c
              → Fills fail (fail_loop pattern len fuel fail i (from_minus_one c)))
          → Fills fail (fail_loop pattern len (suc fuel) fail i (from_minus_one c))
      step c w m (inl (test, same)) lt rec =
          let longest = advance pattern i c w same in
          let e = fail_entry_lem pattern len fits fail (i + 1) c lt t longest in
          let len_eq = length-set fail (i + 1) (from_minus_one e.0) in
          rw (loop_advance fuel fail i c e.0 lt r test e.1) (
            Fills-set fail (i + 1) e.0 (
              rec (set fail (i + 1) (from_minus_one e.0)) (i + 1) (suc c) lt (omega arith)
                (omega arith) (IsTable-set pattern len fits fail (i + 1) e.0 (omega arith) t e.2)
                (IsLongest-IsCandidate pattern (i + 1) c longest)))
      step zero w m (inr (test, p, differ)) lt rec = absurd (omega arith)
      step (suc k) w m (inr (test, p, differ)) lt rec =
          let b = w.below in
          let e = t.entries k (omega arith) in
          let fb = e.2.below in
          rw (loop_retreat fuel fail i k e.0 lt (omega arith) test e.1)
            (rec fail i e.0 h r (omega arith) t (retreat pattern i k e.0 w differ e.2))

  start-IsTable :
      (fail : List ℤ)
      → 0 < len
      → len ≤ length fail
      → IsTable pattern (set fail 0 (negsuc 0)) (0 + 1)
  start-IsTable fail p r = record {
    room = let e = length-set fail 0 (negsuc 0) in omega arith;
    entries = λ j q. entry j (omega arith);
  }
    where
      entry :
          (j : ℕ)
          → j ≡ 0
          → (f : ℕ) × (entry_at (set fail 0 (negsuc 0)) j ≡ from_minus_one f) × IsFail pattern j f
      entry j e = rw e (
        0,
        get_or-set_self fail 0 (negsuc 0) (pos 0) (omega arith),
        record {
          below = omega arith;
          sound = λ t q s. absurd (omega arith);
          best = λ t k s q b m. absurd (omega arith);
        },
      )

  -- For a pattern that is not empty and arrays of at least its length, `BufferFailArray` ends,
  -- reads and writes nothing out of range, and stores at each index the longest proper border
  -- of the prefix before it whose next element differs, or -1 where there is none.
  pub buffer_fail_array-IsTable :
      (fail : List ℤ)
      → 0 < len
      → len ≤ length fail
      → (out : List ℤ) × (buffer_fail_array pattern fail len ≡ done out)
        × IsTable pattern out len
        × (length out ≡ length fail)
  buffer_fail_array-IsTable fail p r =
      let e = length-set fail 0 (negsuc 0) in
      let q : 0 < length fail = omega arith in
      let filled =
        fail_loop-Fills (2 * len + 1) (set fail 0 (negsuc 0)) 0 0 p (omega arith) (omega arith)
          (start-IsTable fail p r) (start-IsCandidate pattern) in
      (
        filled.0,
        unfold buffer_fail_array in rw (lt→ltb 0 len p, put-done fail 0 (negsuc 0) q) filled.1,
        filled.2,
        filled.3 ∙ e,
      )
