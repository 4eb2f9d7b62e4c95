-- ===== src/Buffer.antt =====
-- Core/Algorithm/SeptemBuffer.h and SeptemBuffer.cpp: searches in byte buffers.
--
-- A pointer with its length is a list; `int32` sizes are taken as natural numbers, since every loop
-- here does nothing on a negative size, as on 0. An `int32` that may be -1 is an integer.
-- The element type `T` of the templates is taken to be an integer type, as in the header's own uses.
pub mod Match
pub mod Border
pub mod Table
pub mod FailArray
pub mod State
pub mod Search
pub mod Rounds
pub mod Syncword
use septem_cpp.Common.{
  ℕ, zero, suc, ◌+◌, ◌-◌, ◌*◌, ◌/◌, ◌%◌, ◌≤◌, ◌<◌, ◌≡◌, Bool, true, false, List, [], ◌∷◌, ltb, leb,
  ◌==◌, if◌then◌else◌, length, replicate, Access, fault, abort, out_of_fuel, done, ◌>>=◌, ◌>>◌,
  check, get, get_int, put, read, le_value,
}
use septem_cpp.Common.Int.{ℤ, pos, negsuc}

-- `++n` on an `int32`.
abbrev pub inc : ℤ → ℤ
inc (pos n) = pos (suc n)
inc (negsuc zero) = pos 0
inc (negsuc (suc n)) = negsuc n

-- `j < n` for a size `n`.
abbrev pub lt_size : ℤ → ℕ → Bool
lt_size (pos j) n = ltb j n
lt_size (negsuc j) n = true

-- `n == j` for a size `n`.
abbrev pub eq_size : ℕ → ℤ → Bool
eq_size n (pos j) = n == j
eq_size n (negsuc j) = false

-- The rounds `index, index + 1, …` of the loop, with `maxdex - index` of them left.
unfoldable pub syncword_loop : List ℕ → ℕ → ℕ → ℕ → Access ℤ
syncword_loop buffer syncword zero index = done (negsuc 0)
syncword_loop buffer syncword (suc left) index = do
  word ← read buffer index 4
  elim (le_value word == syncword) [
    | true ↦ done (pos index)
    | false ↦ syncword_loop buffer syncword left (index + 1)
  ]

-- `BufferBufferSyncword`.
unfoldable pub buffer_buffer_syncword : List ℕ → ℕ → ℕ → Access ℤ
unfolding syncword_loop
buffer_buffer_syncword buffer size syncword = syncword_loop buffer syncword (size - 4) 0

-- `-1 == k || xs[i] == ys[k]`
unfoldable pub restart_or_equal : List ℕ → ℕ → List ℕ → ℤ → Access Bool
restart_or_equal xs i ys (negsuc zero) = done true
restart_or_equal xs i ys (negsuc (suc n)) = fault
restart_or_equal xs i ys (pos k) = do x ← get xs i; y ← get ys k; done (x == y)

-- What the loop of `BufferFailArray` stores at the new `index`, for the new `fail_index`.
unfoldable pub fail_entry : List ℕ → List ℤ → ℕ → ℤ → Access ℤ
fail_entry buffer fail index fail_index = do
  a ← get buffer index
  b ← get_int buffer fail_index
  if a == b then get_int fail fail_index else done fail_index

-- The loop of `BufferFailArray`.
unfoldable pub fail_loop : List ℕ → ℕ → ℕ → List ℤ → ℕ → ℤ → Access (List ℤ)
fail_loop buffer len zero fail index fail_index = out_of_fuel
fail_loop buffer len (suc fuel) fail index fail_index = elim (ltb (index + 1) len) [
  | false ↦ done fail
  | true ↦ do
    advance ← restart_or_equal buffer index buffer fail_index
    elim advance [
      | true ↦ do
        entry ← fail_entry buffer fail (index + 1) (inc fail_index)
        fail' ← put fail (index + 1) entry
        fail_loop buffer len fuel fail' (index + 1) (inc fail_index)
      | false ↦ do next ← get_int fail fail_index; fail_loop buffer len fuel fail index next
    ]
]

-- `BufferFailArray`; the loop makes fewer than `2 * length + 1` rounds.
unfoldable pub buffer_fail_array : List ℕ → List ℤ → ℕ → Access (List ℤ)
unfolding fail_loop fail_entry restart_or_equal
buffer_fail_array buffer fail len = do
  check (ltb 0 len)
  first ← put fail 0 (negsuc 0)
  fail_loop buffer len (2 * len + 1) first 0 (negsuc 0)

-- The loop of `BufferBuffer`: the last `i` and `j`.
unfoldable pub search_loop : List ℕ → ℕ → List ℕ → ℕ → List ℤ → ℕ → ℕ → ℤ → Access (ℕ × ℤ)
search_loop m_buffer m_length n_buffer n_length fail zero i j = out_of_fuel
search_loop m_buffer m_length n_buffer n_length fail (suc fuel) i j = elim (ltb i m_length) [
  | false ↦ done (i, j)
  | true ↦ elim (lt_size j n_length) [
    | false ↦ done (i, j)
    | true ↦ do
      advance ← restart_or_equal m_buffer i n_buffer j
      elim advance [
        | true ↦ search_loop m_buffer m_length n_buffer n_length fail fuel (i + 1) (inc j)
        | false ↦ do
          next ← get_int fail j
          search_loop m_buffer m_length n_buffer n_length fail fuel i next
      ]
  ]
]

-- `NLength == j ? i - NLength : -1`; the loop leaves `NLength ≤ i` where the two are equal.
unfoldable pub search_result : ℕ → ℕ × ℤ → ℤ
search_result n_length (i, j) = if eq_size n_length j then pos (i - n_length) else negsuc 0

-- `BufferBuffer`.
unfoldable pub buffer_buffer : List ℕ → ℕ → List ℕ → ℕ → Access ℤ
unfolding buffer_fail_array search_loop search_result
buffer_buffer m_buffer m_length n_buffer n_length =
    if leb m_length 0 then done (negsuc 0) else if leb n_length 0 then done (negsuc 0) else do
      fail ← buffer_fail_array n_buffer (replicate n_length (pos 0)) n_length
      last ← search_loop m_buffer m_length n_buffer n_length fail (2 * m_length + 2) 0 (pos 0)
      done (search_result n_length last)
