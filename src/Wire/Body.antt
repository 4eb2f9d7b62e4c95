-- ===== src/Wire/Body.antt =====
-- `FSNetBufferBody`: a block of the heap and its length.
use septem_cpp.Common.{
  ℕ, zero, suc, ◌+◌, ◌*◌, ◌%◌, ◌^◌, List, [], ◌∷◌, Bool, true, false, if◌then◌else◌, ltb, Option,
  none, some, Access, fault, done, ◌>>=◌, get_int, read, le_value,
}
use septem_cpp.Common.Int.{ℤ, pos, negsuc, add_ℕ}
use septem_cpp.Wire.Xor.{xor_loop}

-- `bufferPtr`, with what it points to, and `length`, which no operation makes negative.
pub record Body : Type 0 where
  pub buffer_ptr : Option (List ℕ)
  pub length : ℕ

-- The default constructor.
abbrev pub init : Body
init = record { buffer_ptr = none; length = 0 }

-- The block that `bufferPtr[0] .. bufferPtr[n - 1]` reads.
unfoldable pub deref : Option (List ℕ) → ℕ → Access (List ℕ)
deref p zero = done []
deref none (suc n) = fault
deref (some block) (suc n) = read block 0 (suc n)

-- `IsValid`.
unfoldable pub is_valid : Body → Bool
is_valid b = elim b.buffer_ptr [ none ↦ false | some block ↦ true ]

-- `Reset`.
unfoldable pub reset : Body → Body
reset b = record b { buffer_ptr = none; length = 0 }

-- `BufferSize < InLength || InLength < 0`
unfoldable pub rejects : ℕ → ℤ → Bool
rejects buffer_size (pos n) = ltb buffer_size n
rejects buffer_size (negsuc n) = true

-- The number of bytes that a length which was not rejected stands for.
unfoldable pub bytes_of : ℤ → ℕ
bytes_of (pos n) = n
bytes_of (negsuc n) = 0

-- `MemRead` at `data_ptr + offset`.
unfoldable pub mem_read : Body → List ℕ → ℕ → ℕ → ℤ → Access (Bool × Body)
unfolding rejects bytes_of reset
mem_read b data_ptr offset buffer_size in_length =
    if rejects buffer_size in_length then done (false, b) else do
      let b' = if ltb 0 b.length then reset b else b
      block ← read data_ptr offset (bytes_of in_length)
      done (true, record b' { buffer_ptr = some block; length = bytes_of in_length })

-- `XOR`.
unfoldable pub xor : Body → Access ℕ
unfolding deref xor_loop
xor b = do block ← deref b.buffer_ptr b.length; done (xor_loop 0 block)

-- `bufferPtr[i]`
unfoldable pub element : Option (List ℕ) → ℤ → Access ℕ
element none i = fault
element (some block) i = get_int block i

-- `i + 3 < length`; the sum of `int32` is undefined where it overflows.
unfoldable pub word_below : ℤ → ℕ → Access Bool
word_below (pos i) n = if ltb (i + 3) (2 ^ 31) then done (ltb (i + 3) n) else fault
word_below (negsuc zero) n = done (ltb 2 n)
word_below (negsuc (suc zero)) n = done (ltb 1 n)
word_below (negsuc (suc (suc zero))) n = done (ltb 0 n)
word_below (negsuc (suc (suc (suc k)))) n = done true

-- The four bytes from `index` on, as the loops of `GetInt32` and `GetFloat` read them.
unfoldable pub four_bytes : Body → ℤ → Access (List ℕ)
unfolding element
four_bytes b index = do
  b0 ← element b.buffer_ptr index
  b1 ← element b.buffer_ptr (add_ℕ index 1)
  b2 ← element b.buffer_ptr (add_ℕ index 2)
  b3 ← element b.buffer_ptr (add_ℕ index 3)
  done (b0 ∷ b1 ∷ b2 ∷ b3 ∷ [])

-- `OutValue += n << (i * 8)`, from byte `i` on, on 32-bit patterns.
unfoldable pub shifted_sum : ℕ → ℕ → List ℕ → ℕ
shifted_sum out i [] = out
shifted_sum out i (n ∷ ns) = shifted_sum ((out + n * 2 ^ (i * 8)) % 2 ^ 32) (i + 1) ns

-- `GetInt32`: the 32-bit pattern of `OutValue`, or `none` where it returns false.
unfoldable pub get_int32 : Body → ℤ → Access (Option ℕ)
unfolding word_below four_bytes shifted_sum
get_int32 b index = do
  below ← word_below index b.length
  if below then (four_bytes b index >>= λ bytes. done (some (shifted_sum 0 0 bytes))) else done none

-- `GetFloat`: the bit pattern of the float that a union of the four bytes holds.
unfoldable pub get_float : Body → ℤ → Access (Option ℕ)
unfolding word_below four_bytes
get_float b index = do
  below ← word_below index b.length
  if below then (four_bytes b index >>= λ bytes. done (some (le_value bytes))) else done none
