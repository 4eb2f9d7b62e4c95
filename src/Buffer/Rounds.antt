-- ===== src/Buffer/Rounds.antt =====
-- The fuel of the two loops: any larger amount than the one that `BufferBuffer` is given comes to the
-- same.
use septem_cpp.Common.{
  ℕ, zero, suc, ◌+◌, ◌*◌, ◌≤◌, ◌<◌, ◌≡◌, refl, sym, ◌∙◌, List, ◌∷◌, Bool, true, false, length, ltb,
  lt→ltb, leb, replicate, length-replicate, Access, fault, abort, out_of_fuel, done, ◌>>=◌, get_int,
  put, arith,
}
use septem_cpp.Common.Int.{ℤ, pos, negsuc}
use septem_cpp.Buffer.{
  inc, lt_size, restart_or_equal, fail_entry, fail_loop, buffer_fail_array, search_loop,
  search_result, buffer_buffer,
}
use septem_cpp.Buffer.FailArray.{buffer_fail_array-IsTable}
use septem_cpp.Buffer.Search.{search_loop-Ends}
use septem_cpp.Buffer.State.{start-IsState}

-- What returns still returns when what follows it does.
bind-more :
    {A B : Type 0} (r : B) (x : Access A) (f g : A → Access B)
    → ((a : A) → f a ≡ done r → g a ≡ done r)
    → (x >>= f) ≡ done r
    → (x >>= g) ≡ done r
bind-more r (done a) f g k h = k a h
bind-more r fault f g k h = cc
bind-more r abort f g k h = cc
bind-more r out_of_fuel f g k h = cc

branch-more :
    {B : Type 0} (r : B) (b : Bool) (x y z w : Access B)
    → (x ≡ done r → z ≡ done r)
    → (y ≡ done r → w ≡ done r)
    → elim b [ false ↦ x | true ↦ y ] ≡ done r
    → elim b [ false ↦ z | true ↦ w ] ≡ done r
branch-more r false x y z w k l h = k h
branch-more r true x y z w k l h = l h

module _ (pattern : List ℕ) (len : ℕ) where
  fail_loop-more :
      (fuel more : ℕ) (r fail : List ℤ) (index : ℕ) (fail_index : ℤ)
      → fuel ≤ more
      → fail_loop pattern len fuel fail index fail_index ≡ done r
      → fail_loop pattern len more fail index fail_index ≡ done r
  unfolding fail_loop
  fail_loop-more zero more r fail index fail_index le h = cc
  fail_loop-more (suc fuel) zero r fail index fail_index le h = absurd (omega arith)
  fail_loop-more (suc fuel) (suc more) r fail index fail_index le h =
      branch-more r (ltb (index + 1) len) _ _ _ _ (λ k. k)
        (bind-more r (restart_or_equal pattern index pattern fail_index) _ _ (λ advance.
          branch-more r advance _ _ _ _
            (bind-more r (get_int fail fail_index) _ _
              (λ next. fail_loop-more fuel more r fail index next (omega arith)))
            (bind-more r (fail_entry pattern fail (index + 1) (inc fail_index)) _ _ (λ entry.
              bind-more r (put fail (index + 1) entry) _ _ (λ fail'.
                fail_loop-more fuel more r fail' (index + 1) (inc fail_index) (omega arith))))))
        h

module _ (text : List ℕ) (m : ℕ) (pattern : List ℕ) (n : ℕ) (fail : List ℤ) where
  search_loop-more :
      (fuel more : ℕ) (r : ℕ × ℤ) (i : ℕ) (j : ℤ)
      → fuel ≤ more
      → search_loop text m pattern n fail fuel i j ≡ done r
      → search_loop text m pattern n fail more i j ≡ done r
  unfolding search_loop
  search_loop-more zero more r i j le h = cc
  search_loop-more (suc fuel) zero r i j le h = absurd (omega arith)
  search_loop-more (suc fuel) (suc more) r i j le h =
      branch-more r (ltb i m) _ _ _ _ (λ k. k)
        (branch-more r (lt_size j n) _ _ _ _ (λ k. k)
          (bind-more r (restart_or_equal text i pattern j) _ _ (λ advance.
            branch-more r advance _ _ _ _
              (bind-more r (get_int fail j) _ _
                (λ next. search_loop-more fuel more r i next (omega arith)))
              (search_loop-more fuel more r (i + 1) (inc j) (omega arith)))))
        h

-- The loop of `BufferFailArray` from its start.
first_entry :
    (pattern : List ℕ) (k : ℕ)
    → let first = negsuc 0 ∷ replicate k (pos 0) in
      buffer_fail_array pattern (replicate (suc k) (pos 0)) (suc k)
      ≡ fail_loop pattern (suc k) (2 * suc k + 1) first 0 (negsuc 0)
unfolding buffer_fail_array
first_entry pattern k = rw (lt→ltb 0 (suc k) (omega arith)) refl

-- For lengths that are not 0 and within the buffers, the loop of BufferFailArray ends within 2 n
-- + 1 rounds and the search of BufferBuffer within 2 m + 2, for a text of m and a pattern of n
-- elements: with that fuel or any more they end, and with what they end BufferBuffer returns.
pub buffer_buffer-rounds :
    (text : List ℕ) (m : ℕ) (pattern : List ℕ) (n fail_fuel search_fuel : ℕ)
    → 0 < m
    → m ≤ length text
    → 0 < n
    → n ≤ length pattern
    → 2 * n + 1 ≤ fail_fuel
    → 2 * m + 2 ≤ search_fuel
    → (first : List ℤ) × (fail : List ℤ) × (last : ℕ × ℤ) × (put (replicate n (pos 0)) 0 (negsuc 0)
        ≡ done first)
      × (fail_loop pattern n fail_fuel first 0 (negsuc 0) ≡ done fail)
      × (search_loop text m pattern n fail search_fuel 0 (pos 0) ≡ done last)
      × (buffer_buffer text m pattern n ≡ done (search_result n last))
buffer_buffer-rounds text m pattern zero ff sf hm hmt hn hnp hf hs = absurd (omega arith)
buffer_buffer-rounds text m pattern (suc k) ff sf hm hmt hn hnp hf hs =
    let n = suc k in
    let zeros : List ℤ = replicate n (pos 0) in
    let first : List ℤ = negsuc 0 ∷ replicate k (pos 0) in
    let (fail, filled, table, size) =
      buffer_fail_array-IsTable pattern n hnp zeros hn
        (omega (arith, length-replicate {A = ℤ} n (pos 0))) in
    let (last, ended, is_last) =
      search_loop-Ends text pattern n m hmt hnp hn fail table (2 * m + 2) 0 1 (omega arith)
        (omega arith) (omega arith) (start-IsState text pattern n hn) in
    let tm : leb m 0 ≡ false = ground arith in
    let tn : leb n 0 ≡ false = ground arith in
    (
      first,
      fail,
      last,
      refl,
      fail_loop-more pattern n (2 * n + 1) ff fail first 0 (negsuc 0) hf
          (sym (first_entry pattern k) ∙ filled),
      search_loop-more text m pattern n fail (2 * m + 2) sf last 0 (pos 0) hs ended,
      unfold buffer_buffer in rw (tm, tn, filled, ◌>>=◌, ended, ◌>>=◌) refl,
    )
