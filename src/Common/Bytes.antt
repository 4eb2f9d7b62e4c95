-- ===== src/Common/Bytes.antt =====
-- Memory as a list of bytes: little-endian numbers, and reads that stay inside a block or fault.
use Prim.Native.Nat.{ℕ, zero, suc, ◌+◌, ◌*◌, ◌/◌, ◌%◌, ◌^◌, ◌≤◌, ◌<◌}
use mathlib.Core.Path.{◌≡◌, refl, ap, ◌∙◌}
use mathlib.Core.List.{List, [], ◌∷◌, ◌++◌}
use native.Mathlib.Nat.{pow-suc}
use native.Mathlib.Omega.{arith}
use septem_cpp.Common.Faults.{Access, fault, done}
use septem_cpp.Common.Tests.{leb, le→leb, if◌then◌else◌}
use septem_cpp.Common.Lists.{
  length, take, drop, take_all, length-append, drop-append, take-append, drop-drop,
}

-- `n` bytes from `p + off`.
unfoldable pub read : List ℕ → ℕ → ℕ → Access (List ℕ)
read p off n = if leb (off + n) (length p) then done (take n (drop off p)) else fault

-- The memory image of a number of `n` bytes on a little-endian machine.
unfoldable pub le_bytes : ℕ → ℕ → List ℕ
le_bytes zero v = []
le_bytes (suc n) v = v % 256 ∷ le_bytes n (v / 256)

unfoldable pub le_value : List ℕ → ℕ
le_value [] = 0
le_value (b ∷ bs) = b + 256 * le_value bs

abbrev pub IsBytes : List ℕ → Type 0
IsBytes [] = Unit {0}
IsBytes (b ∷ bs) = (b < 256) × IsBytes bs

pub read-done :
    (p : List ℕ) (off n : ℕ) → off + n ≤ length p → read p off n ≡ done (take n (drop off p))
unfolding read
read-done p off n h = rw (le→leb (off + n) (length p) h)

pub length-le_bytes : (n v : ℕ) → length (le_bytes n v) ≡ n
unfolding le_bytes
length-le_bytes zero v = refl
length-le_bytes (suc n) v = ap suc (length-le_bytes n (v / 256))

pub le_bytes-IsBytes : (n v : ℕ) → IsBytes (le_bytes n v)
unfolding le_bytes
le_bytes-IsBytes zero v = tt
le_bytes-IsBytes (suc n) v = (omega arith, le_bytes-IsBytes n (v / 256))

pub le_value-le_bytes : (n v : ℕ) → v < 256 ^ n → le_value (le_bytes n v) ≡ v
unfolding le_bytes le_value
le_value-le_bytes zero v h = omega arith
le_value-le_bytes (suc n) v h =
    ground (arith, le_value-le_bytes n (v / 256) (omega (arith, pow-suc 256 n)))

pub le_bytes-le_value : (bs : List ℕ) → IsBytes bs → le_bytes (length bs) (le_value bs) ≡ bs
unfolding le_bytes le_value
le_bytes-le_value [] h = refl
le_bytes-le_value (b ∷ bs) (p, q) = ground (arith, le_bytes-le_value bs q)

pub le_value-lt : (bs : List ℕ) → IsBytes bs → le_value bs < 256 ^ length bs
unfolding le_value
le_value-lt [] h = omega arith
le_value-lt (b ∷ bs) (p, q) = omega (arith, le_value-lt bs q, pow-suc 256 (length bs))

pub read_all : (p : List ℕ) → read p 0 (length p) ≡ done p
read_all p = read-done p 0 (length p) (omega arith) ∙ ap done (take_all p)

-- A block between two others.
pub read_middle : (g xs r : List ℕ) → read (g ++ (xs ++ r)) (length g) (length xs) ≡ done xs
read_middle g xs r =
    read-done (g ++ (xs ++ r)) (length g) (length xs)
      (omega (arith, length-append g (xs ++ r), length-append xs r))
    ∙ ap (λ l. done (take (length xs) l)) (drop-append g (xs ++ r))
    ∙ ap done (take-append xs r)

-- `memcpy(p + off, src, n)` for a source of `n` bytes.
unfoldable pub write : List ℕ → ℕ → List ℕ → Access (List ℕ)
write p off src =
    if leb (off + length src) (length p)
    then done (take off p ++ (src ++ drop (off + length src) p))
    else fault

-- A write that follows what was written so far.
pub write_next :
    (g src r : List ℕ)
    → length src ≤ length r
    → write (g ++ r) (length g) src ≡ done (g ++ (src ++ drop (length src) r))
unfolding write
write_next g src r h =
    let fits : length g + length src ≤ length (g ++ r) = omega (arith, length-append g r) in
    rw
      (
        le→leb _ _ fits,
        take-append g r,
        ← drop-drop (length src) (length g) (g ++ r),
        drop-append g r,
      )
      refl

pub IsBytes-append : (xs ys : List ℕ) → IsBytes xs → IsBytes ys → IsBytes (xs ++ ys)
IsBytes-append [] ys h k = k
IsBytes-append (x ∷ xs) ys (p, q) k = (p, IsBytes-append xs ys q k)
