-- ===== src/Graph/Key.antt =====
-- `HashEdgeKey`: two ids in one 64-bit key.
use septem_cpp.Common.{
  ℕ, ◌+◌, ◌-◌, ◌*◌, ◌%◌, ◌^◌, ◌≤◌, ◌<◌, ◌≡◌, ap, bit_or, bit_or-ge, bit_or_disjoint, arith,
}
use septem_cpp.Common.Int.{ℤ, pos, negsuc}

-- The conversion of an `int32` to `uint64`, which extends the sign.
unfoldable pub to_uint64 : ℤ → ℕ
to_uint64 (pos n) = n % 2 ^ 64
to_uint64 (negsuc n) = 2 ^ 64 - 1 - n % 2 ^ 64

unfoldable pub hash_edge_key : ℕ → ℕ → ℕ
hash_edge_key in_start_id in_end_id = bit_or ((in_start_id * 2 ^ 32) % 2 ^ 64) in_end_id

-- The key of the edge between two `int32` ids.
abbrev pub key_of : ℤ → ℤ → ℕ
key_of s e = hash_edge_key (to_uint64 s) (to_uint64 e)

-- The range of an `int32`.
abbrev pub IsInt32 : ℤ → Type 0
IsInt32 (pos n) = n < 2 ^ 31
IsInt32 (negsuc n) = n < 2 ^ 31

-- For ids that are not negative the key is a number with the two ids as digits.
pub key_of-pos : (s e : ℕ) → s < 2 ^ 31 → e < 2 ^ 31 → key_of (pos s) (pos e) ≡ s * 2 ^ 32 + e
unfolding hash_edge_key to_uint64
key_of-pos s e hs he =
    let a : s % 2 ^ 64 * 2 ^ 32 % 2 ^ 64 ≡ s * 2 ^ 32 = omega arith in
    let b : e % 2 ^ 64 ≡ e = omega arith in rw (a, b) (bit_or_disjoint 32 s e (omega arith))

-- A negative id gives a key that no pair of other ids has.
pub key_of-negative-start : (n : ℕ) (e : ℤ) → n < 2 ^ 31 → 2 ^ 63 ≤ key_of (negsuc n) e
unfolding hash_edge_key to_uint64
key_of-negative-start n e h =
    let b = bit_or-ge (to_uint64 (negsuc n) * 2 ^ 32 % 2 ^ 64) (to_uint64 e) in omega arith

pub key_of-negative-end : (s : ℤ) (n : ℕ) → n < 2 ^ 31 → 2 ^ 63 ≤ key_of s (negsuc n)
unfolding hash_edge_key to_uint64
key_of-negative-end s n h =
    let b = bit_or-ge (to_uint64 s * 2 ^ 32 % 2 ^ 64) (to_uint64 (negsuc n)) in omega arith

-- For int32 ids a and b, and s and e below 2 ^ 31, the 64-bit key of a and b is that of s and e
-- only if a is s and b is e.
pub key_of-injective :
    (a b : ℤ) (s e : ℕ)
    → IsInt32 a
    → IsInt32 b
    → s < 2 ^ 31
    → e < 2 ^ 31
    → key_of a b ≡ key_of (pos s) (pos e)
    → (a ≡ pos s) × (b ≡ pos e)
key_of-injective (pos x) (pos y) s e ha hb hs he h =
    let p = key_of-pos x y ha hb in
    let q = key_of-pos s e hs he in
    let xs : x ≡ s = omega arith in let ye : y ≡ e = omega arith in (ap pos xs, ap pos ye)
key_of-injective (pos x) (negsuc y) s e ha hb hs he h =
    let p = key_of-negative-end (pos x) y hb in let q = key_of-pos s e hs he in absurd (omega arith)
key_of-injective (negsuc x) b s e ha hb hs he h =
    let p = key_of-negative-start x b ha in let q = key_of-pos s e hs he in absurd (omega arith)
