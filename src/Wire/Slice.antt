-- ===== src/Wire/Slice.antt =====
-- Reading a struct out of the middle of a buffer: what was read has the bytes there as its image.
use septem_cpp.Common.{
  ℕ, zero, suc, ◌+◌, ◌≤◌, ◌≡◌, ◌⊎◌, inl, inr, refl, sym, ap, ◌∙◌, List, [], ◌∷◌, ◌++◌, true, false,
  ltb, Bool-cases, length, take, drop, length-take, length-drop, take-add, drop-drop,
  take-append-drop, take_all, some, done, ◌>>=◌, read-done, IsBytes, le_bytes, le_value,
  le_bytes-le_value, arith,
}
use septem_cpp.Common.Int.{ℤ, pos, negsuc}
use septem_cpp.Wire.Head
use septem_cpp.Wire.Head.{Head as HeadStruct}
use septem_cpp.Wire.Body
use septem_cpp.Wire.Body.{Body as BodyStruct}
use septem_cpp.Wire.Foot
use septem_cpp.Wire.Foot.{Foot as FootStruct}

-- `n` bytes from `i` on.
abbrev pub slice : List ℕ → ℕ → ℕ → List ℕ
slice bs i n = take n (drop i bs)

pub length-slice : (bs : List ℕ) (i n : ℕ) → i + n ≤ length bs → length (slice bs i n) ≡ n
length-slice bs i n h = omega (arith, length-take n (drop i bs), length-drop i bs)

pub slice-append :
    (bs : List ℕ) (i m n : ℕ) → slice bs i m ++ slice bs (i + m) n ≡ slice bs i (m + n)
slice-append bs i m n =
    ap (λ l. slice bs i m ++ take n l) (sym (drop-drop m i bs)) ∙ sym (take-add m n (drop i bs))

pub IsBytes-take : (n : ℕ) (bs : List ℕ) → IsBytes bs → IsBytes (take n bs)
IsBytes-take zero bs h = tt
IsBytes-take (suc n) [] h = tt
IsBytes-take (suc n) (b ∷ bs) (p, q) = (p, IsBytes-take n bs q)

pub IsBytes-drop : (n : ℕ) (bs : List ℕ) → IsBytes bs → IsBytes (drop n bs)
IsBytes-drop zero bs h = h
IsBytes-drop (suc n) [] h = tt
IsBytes-drop (suc n) (b ∷ bs) (p, q) = IsBytes-drop n bs q

pub IsBytes-slice : (bs : List ℕ) (i n : ℕ) → IsBytes bs → IsBytes (slice bs i n)
IsBytes-slice bs i n h = IsBytes-take n (drop i bs) (IsBytes-drop i bs h)

-- A number read from `n` bytes has them as its image.
image_of_number : (bs : List ℕ) (n : ℕ) → IsBytes bs → length bs ≡ n → le_bytes n (le_value bs) ≡ bs
image_of_number bs n h e = ap (λ k. le_bytes k (le_value bs)) (sym e) ∙ le_bytes-le_value bs h

part :
    (bs : List ℕ) (i n : ℕ)
    → IsBytes bs
    → i + n ≤ length bs
    → le_bytes n (le_value (slice bs i n)) ≡ slice bs i n
part bs i n h fits =
    image_of_number (slice bs i n) n (IsBytes-slice bs i n h) (length-slice bs i n fits)

peel : (bs : List ℕ) (i n : ℕ) → slice bs i n ++ drop (i + n) bs ≡ drop i bs
peel bs i n = rw (← drop-drop n i bs) (take-append-drop n (drop i bs))

pub to_bytes-of_bytes :
    (bs : List ℕ) → IsBytes bs → length bs ≡ 16 → Head.to_bytes (Head.of_bytes bs) ≡ bs
unfolding Head.of_bytes Head.to_bytes
to_bytes-of_bytes bs h e = parts ∙ ap (λ l. slice bs 0 4 ++ l) tail_4 ∙ peel bs 0 4
  where
    last : slice bs 12 4 ≡ drop 12 bs
    last =
        let e' : 4 ≡ length (drop 12 bs) = omega (arith, length-drop 12 bs) in
        ap (λ k. take k (drop 12 bs)) e' ∙ take_all (drop 12 bs)

    tail_8 : slice bs 8 4 ++ slice bs 12 4 ≡ drop 8 bs
    tail_8 = ap (λ l. slice bs 8 4 ++ l) last ∙ peel bs 8 4

    tail_6 : slice bs 6 2 ++ (slice bs 8 4 ++ slice bs 12 4) ≡ drop 6 bs
    tail_6 = ap (λ l. slice bs 6 2 ++ l) tail_8 ∙ peel bs 6 2

    tail_5 : slice bs 5 1 ++ (slice bs 6 2 ++ (slice bs 8 4 ++ slice bs 12 4)) ≡ drop 5 bs
    tail_5 = ap (λ l. slice bs 5 1 ++ l) tail_6 ∙ peel bs 5 1

    tail_4 :
        slice bs 4 1 ++ (slice bs 5 1 ++ (slice bs 6 2 ++ (slice bs 8 4 ++ slice bs 12 4)))
        ≡ drop 4 bs
    tail_4 = ap (λ l. slice bs 4 1 ++ l) tail_5 ∙ peel bs 4 1

    parts :
        Head.to_bytes (Head.of_bytes bs)
        ≡ slice bs 0 4
          ++ (slice bs 4 1 ++ (slice bs 5 1 ++ (slice bs 6 2 ++ (slice bs 8 4 ++ slice bs 12 4))))
    parts = λ i.
        part bs 0 4 h (omega arith) i
        ++ (part bs 4 1 h (omega arith) i
            ++ (part bs 5 1 h (omega arith) i
                ++ (part bs 6 2 h (omega arith) i
                    ++ (part bs 8 4 h (omega arith) i ++ part bs 12 4 h (omega arith) i))))

-- What the three `MemRead`s do with `size` bytes at `index` in a buffer that holds them.
module _ (bs : List ℕ) (h : IsBytes bs) (index size : ℕ) (fits : index + size ≤ length bs) where
  pub head-mem_read :
      (old : HeadStruct)
      → (Head.mem_read old bs index size ≡ done (false, old))
        ⊎ ((16 ≤ size)
            × (new : HeadStruct) × (Head.mem_read old bs index size ≡ done (true, new))
            × (Head.to_bytes new ≡ slice bs index 16))
  unfolding Head.mem_read
  head-mem_read old = elim (Bool-cases (ltb size 16)) [
    | inl short ↦ inl (rw short)
    | inr enough ↦
        let room : 16 ≤ size = ground arith in
        let len = length-slice bs index 16 (omega arith) in
        inr (
          room,
          Head.of_bytes (slice bs index 16),
          rw (enough, read-done bs index 16 (omega arith), ◌>>=◌),
          to_bytes-of_bytes (slice bs index 16) (IsBytes-slice bs index 16 h) len,
        )
  ]

  pub foot-mem_read :
      (old : FootStruct)
      → (Foot.mem_read old bs index size ≡ done (false, old))
        ⊎ ((8 ≤ size)
            × (new : FootStruct) × (Foot.mem_read old bs index size ≡ done (true, new))
            × (Foot.to_bytes new ≡ slice bs index 8))
  unfolding Foot.mem_read Foot.to_bytes
  foot-mem_read old = elim (Bool-cases (ltb size 8)) [
    | inl short ↦ inl (rw short)
    | inr enough ↦
        let room : 8 ≤ size = ground arith in
        let len = length-slice bs index 8 (omega arith) in
        inr (
          room,
          record { timestamp = le_value (slice bs index 8) },
          rw (enough, read-done bs index 8 (omega arith), ◌>>=◌),
          image_of_number (slice bs index 8) 8 (IsBytes-slice bs index 8 h) len,
        )
  ]

  pub body-mem_read :
      (old : BodyStruct) (in_length : ℤ)
      → (Body.mem_read old bs index size in_length ≡ done (false, old))
        ⊎ ((n : ℕ) × (in_length ≡ pos n)
            × (n ≤ size)
            × (Body.mem_read old bs index size in_length
                ≡ done (true, record { buffer_ptr = some (slice bs index n); length = n })))
  unfolding Body.mem_read
  body-mem_read old (negsuc k) = inl refl
  body-mem_read old (pos n) = elim (Bool-cases (ltb size n)) [
    | inl short ↦ inl (rw short)
    | inr enough ↦
        let room : n ≤ size = ground arith in
        inr (n, refl, room, rw (enough, read-done bs index n (omega arith), ◌>>=◌))
  ]
