-- ===== src/Tests/Buffer.antt =====
-- Inputs for the searches of SeptemBuffer.h.
use septem_cpp.Common.{
  ℕ, ◌≡◌, refl, put, List, [], ◌∷◌, length, replicate, done, true, false, set, read, le_value,
  arith,
}
use septem_cpp.Common.Int.{ℤ, pos, negsuc}
use septem_cpp.Buffer.{
  buffer_buffer, buffer_fail_array, fail_loop, search_loop, search_result, buffer_buffer_syncword,
}
use septem_cpp.Buffer.FailArray.{buffer_fail_array-IsTable}
use septem_cpp.Buffer.Table.{IsTable}
use septem_cpp.Buffer.Search.{buffer_buffer-IsFirst}
use septem_cpp.Buffer.State.{IsFirst}
use septem_cpp.Buffer.Syncword.{IsFirstSyncword, buffer_buffer_syncword-IsFirst}
use septem_cpp.Buffer.Rounds.{buffer_buffer-rounds}
use septem_cpp.Wire.Xor.{fast_integrity_of, fast_integrity_single_byte}

abbrev text : List ℕ
text = 1 ∷ 2 ∷ 1 ∷ 2 ∷ 1 ∷ 3 ∷ []

abbrev word : List ℕ
word = 1 ∷ 2 ∷ 1 ∷ 3 ∷ []

found_at_two : buffer_buffer text 6 word 4 ≡ done (pos 2)
unfolding buffer_buffer
found_at_two = refl

found_nowhere : buffer_buffer word 4 text 6 ≡ done (negsuc 0)
unfolding buffer_buffer
found_nowhere = refl

fail_of_word :
    buffer_fail_array word (replicate 4 (pos 0)) 4 ≡ done (negsuc 0 ∷ pos 0 ∷ negsuc 0 ∷ pos 1 ∷ [])
unfolding buffer_fail_array
fail_of_word = refl

syncword_found : buffer_buffer_syncword (9 ∷ 1 ∷ 0 ∷ 0 ∷ 0 ∷ 7 ∷ []) 6 1 ≡ done (pos 1)
unfolding buffer_buffer_syncword read le_value
syncword_found = refl

buffer_buffer-IsFirst_example :
    (r : ℤ) × (buffer_buffer text 6 word 4 ≡ done r) × IsFirst text 6 word 4 r
buffer_buffer-IsFirst_example =
    buffer_buffer-IsFirst text 6 word 4 (omega arith) (omega arith) (omega arith)

buffer_fail_array-IsTable_example :
    (out : List ℤ) × (buffer_fail_array word (replicate 4 (pos 0)) 4 ≡ done out)
    × IsTable word out 4
    × (length out ≡ 4)
buffer_fail_array-IsTable_example =
    buffer_fail_array-IsTable word 4 (omega arith) (replicate 4 (pos 0)) (omega arith) (omega arith)

buffer_buffer-rounds_example :
    (first : List ℤ) × (fail : List ℤ) × (last : ℕ × ℤ) × (put (replicate 4 (pos 0)) 0 (negsuc 0)
      ≡ done first)
    × (fail_loop word 4 100 first 0 (negsuc 0) ≡ done fail)
    × (search_loop text 6 word 4 fail 200 0 (pos 0) ≡ done last)
    × (buffer_buffer text 6 word 4 ≡ done (search_result 4 last))
buffer_buffer-rounds_example =
    buffer_buffer-rounds text 6 word 4 100 200 (omega arith) (omega arith) (omega arith)
      (omega arith) (omega arith) (omega arith)

abbrev noisy : List ℕ
noisy = 9 ∷ 1 ∷ 0 ∷ 0 ∷ 0 ∷ 7 ∷ []

buffer_buffer_syncword-IsFirst_example :
    (r : ℤ) × (buffer_buffer_syncword noisy 6 1 ≡ done r) × IsFirstSyncword noisy 1 0 2 r
buffer_buffer_syncword-IsFirst_example = buffer_buffer_syncword-IsFirst noisy 6 1 (omega arith)

passes : fast_integrity_of text 6 2 ≡ done true
unfolding fast_integrity_of read
passes = refl

fast_integrity_single_byte_example : fast_integrity_of (set text 3 5) 6 2 ≡ done false
fast_integrity_single_byte_example =
    fast_integrity_single_byte text 2 3 5 (omega arith) (omega arith) passes
