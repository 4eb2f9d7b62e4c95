-- ===== src/Buffer/Search.antt =====
-- `BufferBuffer`: the search with the fail array finds the first occurrence, or none.
use septem_cpp.Common.{
  ℕ, zero, suc, ◌+◌, ◌-◌, ◌*◌, ◌≤◌, ◌<◌, ◌≡◌, ◌≢◌, ◌⊎◌, inl, inr, refl, subst, List, true, false,
  ltb, ltb→lt, lt→ltb, Bool-cases, length, get-done, replicate, length-replicate, Access, done,
  arith,
}
use septem_cpp.Common.Int.{ℤ, pos, negsuc}
use septem_cpp.Buffer.{inc, restart_or_equal, search_loop, search_result, buffer_buffer}
use septem_cpp.Buffer.Match.{at, from_minus_one, prev}
use septem_cpp.Buffer.FailArray.{buffer_fail_array-IsTable}
use septem_cpp.Buffer.Table.{entry_at, IsTable, inc-from_minus_one, restart_or_equal_lem}
use septem_cpp.Buffer.State.{
  IsFirst, IsState, start-IsState, advance, retreat, IsLast, search_result_lem, prev_lt,
  lt_size-true,
}

module _ (text pattern : List ℕ) (n : ℕ) where
  module _ (m : ℕ) (m_fits : m ≤ length text) (n_fits : n ≤ length pattern) (positive : 0 < n)
      (fail : List ℤ) (table : IsTable pattern fail n) where
    abbrev pub loop : ℕ → ℕ → ℤ → Access (ℕ × ℤ)
    loop fuel i j = search_loop text m pattern n fail fuel i j

    abbrev pub Ends : Access (ℕ × ℤ) → Type 0
    Ends result = (last : ℕ × ℤ) × (result ≡ done last) × IsLast text pattern n m last

    loop_advance :
        (fuel i c : ℕ)
        → i < m
        → c ≤ n
        → restart_or_equal text i pattern (from_minus_one c) ≡ done true
        → loop (suc fuel) i (from_minus_one c) ≡ loop fuel (i + 1) (inc (from_minus_one c))
    unfolding search_loop
    loop_advance fuel i c h k test =
        rw (lt→ltb i m h, lt_size-true text pattern n c k, test, search_loop) refl

    loop_retreat :
        (fuel i j f : ℕ)
        → i < m
        → j < n
        → restart_or_equal text i pattern (pos j) ≡ done false
        → entry_at fail j ≡ from_minus_one f
        → loop (suc fuel) i (pos j) ≡ loop fuel i (from_minus_one f)
    unfolding search_loop
    loop_retreat fuel i j f h k test entry =
        let r = table.room in
        rw
          (
            lt→ltb i m h,
            lt→ltb j n k,
            test,
            get-done fail j (pos 0) (let r' : j < length fail = omega arith in r'),
            entry,
            search_loop,
          )
          refl

    loop_full :
        (fuel i : ℕ) → i ≤ m → IsState text pattern n i (suc n) → Ends (loop (suc fuel) i (pos n))
    unfolding search_loop
    loop_full fuel i h v = elim (Bool-cases (ltb i m)) [
      | inl more ↦ (
        (i, pos n),
        rw (more, let e : ltb n n ≡ false = ground arith in e, search_loop),
        (h, inl (refl, v)),
      )
      | inr last ↦ ((i, pos n), rw (last, search_loop), (h, inl (refl, v)))
    ]

    pub search_loop-Ends :
        (fuel i c : ℕ)
        → i ≤ m
        → c ≤ suc n
        → 2 * (m - i) + c < fuel
        → IsState text pattern n i c
        → Ends (loop fuel i (from_minus_one c))
    search_loop-Ends zero i c h k f v = absurd (omega arith)
    search_loop-Ends (suc fuel) i c h k f v =
        go c k f v (position c) (Bool-cases (ltb i m)) (search_loop-Ends fuel)
      where
        position : (c : ℕ) → (c ≤ n) ⊎ (n < c)
        position c = omega arith

        step :
            (c : ℕ)
            → c ≤ n
            → 2 * (m - i) + c < suc fuel
            → IsState text pattern n i c
            → i < m
            → ((restart_or_equal text i pattern (from_minus_one c) ≡ done true)
                × (0 < c → at text i ≡ at pattern (prev c)))
              ⊎ ((restart_or_equal text i pattern (from_minus_one c) ≡ done false)
                  × (0 < c)
                  × (at text i ≢ at pattern (prev c)))
            → ((i c : ℕ)
                → i ≤ m
                → c ≤ suc n
                → 2 * (m - i) + c < fuel
                → IsState text pattern n i c
                → Ends (loop fuel i (from_minus_one c)))
            → Ends (loop (suc fuel) i (from_minus_one c))
        step c k f v lt (inl (test, same)) rec =
            rw (loop_advance fuel i c lt k test, inc-from_minus_one c)
              (rec (i + 1) (suc c) (omega arith) (omega arith) (omega arith)
                (advance text pattern n i c v same))
        step zero k f v lt (inr (test, p, differ)) rec = absurd (omega arith)
        step (suc j) k f v lt (inr (test, p, differ)) rec =
            let e = table.entries j k in
            let b = e.2.below in
            rw (loop_retreat fuel i j e.0 lt k test e.1) (
              rec i e.0 h (omega arith) (omega arith)
                (retreat text pattern n i j e.0 k v differ e.2))

        go :
            (c : ℕ)
            → c ≤ suc n
            → 2 * (m - i) + c < suc fuel
            → IsState text pattern n i c
            → (c ≤ n) ⊎ (n < c)
            → (ltb i m ≡ true) ⊎ (ltb i m ≡ false)
            → ((i c : ℕ)
                → i ≤ m
                → c ≤ suc n
                → 2 * (m - i) + c < fuel
                → IsState text pattern n i c
                → Ends (loop fuel i (from_minus_one c)))
            → Ends (loop (suc fuel) i (from_minus_one c))
        go c k f v (inr full) t rec =
            let e : c ≡ suc n = omega arith in
            rw e (loop_full fuel i h (subst (IsState text pattern n i) e v))
        go c k f v (inl part) (inr last) rec = (
          (i, from_minus_one c),
          unfold search_loop in rw (last, search_loop),
          (h, inr (let g = lt→ltb i m in ground arith, c, refl, part, v)),
        )
        go c k f v (inl part) (inl more) rec =
            step c part f v (ltb→lt i m more)
              (restart_or_equal_lem text i pattern c (let g = ltb→lt i m more in omega arith)
                (prev_lt text pattern n n_fits positive c part))
              rec

-- For lengths within the buffers `BufferBuffer` ends, reads nothing out of range, and returns the
-- first index at which the pattern occurs in the text, or -1 where it occurs nowhere. An empty
-- pattern counts as occurring nowhere.
pub buffer_buffer-IsFirst :
    (text : List ℕ) (m : ℕ) (pattern : List ℕ) (n : ℕ)
    → m ≤ length text
    → n ≤ length pattern
    → 0 < n
    → (r : ℤ) × (buffer_buffer text m pattern n ≡ done r) × IsFirst text m pattern n r
buffer_buffer-IsFirst text zero pattern n h k p =
    (negsuc 0, unfold buffer_buffer in refl, inr (refl, λ s o. absurd (omega (arith, o.0))))
buffer_buffer-IsFirst text (suc m) pattern n h k p =
    let filled =
      buffer_fail_array-IsTable pattern n k (replicate n (pos 0)) p
        (let e = length-replicate n (pos 0) in omega arith) in
    let ended =
      search_loop-Ends text pattern n (suc m) h k p filled.0 filled.2 (2 * suc m + 2) 0 1
        (omega arith) (omega arith) (omega arith) (start-IsState text pattern n p) in
    (
      search_result n ended.0,
      unfold buffer_buffer in rw (filled.1, ended.1) (ground arith),
      search_result_lem text pattern n (suc m) ended.0 ended.2,
    )
