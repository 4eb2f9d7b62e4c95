-- ===== src/Wire/Image.antt =====
-- The memory images of the head and the foot: their lengths, and that a struct is read back from
-- its image.
use septem_cpp.Common.{
  ℕ, ◌%◌, ◌^◌, ◌≤◌, ◌<◌, ◌≡◌, refl, List, ◌++◌, true, false, ltb, ◌>>=◌, drop-append, length, take,
  drop, set, le_value, le_value-le_bytes, IsBytes, done, read_middle, arith,
}
use septem_cpp.Wire.Head
use septem_cpp.Wire.Head.{Head as HeadStruct}
use septem_cpp.Wire.Foot
use septem_cpp.Wire.Foot.{Foot as FootStruct}

-- The fields hold what fits their types.
pub record IsHead (h : HeadStruct) : Type 0 where
  pub syncword_fits : h.syncword < 2 ^ 32
  pub version_fits : h.version < 2 ^ 8
  pub fastcode_fits : h.fastcode < 2 ^ 8
  pub uid_fits : h.uid < 2 ^ 16
  pub size_fits : h.size < 2 ^ 32
  pub reserved_fits : h.reserved < 2 ^ 32

abbrev pub IsFoot : FootStruct → Type 0
IsFoot f = f.timestamp < 2 ^ 64

pub length-head : (h : HeadStruct) → length (Head.to_bytes h) ≡ 16
unfolding Head.to_bytes
length-head h = refl

pub length-foot : (f : FootStruct) → length (Foot.to_bytes f) ≡ 8
unfolding Foot.to_bytes
length-foot f = refl

pub of_bytes-to_bytes : (h : HeadStruct) → IsHead h → Head.of_bytes (Head.to_bytes h) ≡ h
unfolding Head.of_bytes Head.to_bytes
of_bytes-to_bytes h v = λ i. record {
  syncword = le_value-le_bytes 4 h.syncword v.syncword_fits i;
  version = le_value-le_bytes 1 h.version v.version_fits i;
  fastcode = le_value-le_bytes 1 h.fastcode v.fastcode_fits i;
  uid = le_value-le_bytes 2 h.uid v.uid_fits i;
  size = le_value-le_bytes 4 h.size v.size_fits i;
  reserved = le_value-le_bytes 4 h.reserved v.reserved_fits i;
}

-- Reading a head back from its image in a buffer.
pub mem_read-head :
    (old h : HeadStruct) (g r : List ℕ) (size : ℕ)
    → IsHead h
    → 16 ≤ size
    → Head.mem_read old (g ++ (Head.to_bytes h ++ r)) (length g) size ≡ done (true, h)
unfolding Head.mem_read
mem_read-head old h g r size v fits =
    rw
      (
        let e : ltb size 16 ≡ false = ground arith in e,
        ← length-head h,
        read_middle g (Head.to_bytes h) r,
        ◌>>=◌,
        of_bytes-to_bytes h v,
      )
      refl

timestamp-to_bytes : (f : FootStruct) → IsFoot f → le_value (Foot.to_bytes f) ≡ f.timestamp
unfolding Foot.to_bytes
timestamp-to_bytes f v = le_value-le_bytes 8 f.timestamp v

pub mem_read-foot :
    (old f : FootStruct) (g r : List ℕ) (size : ℕ)
    → IsFoot f
    → 8 ≤ size
    → Foot.mem_read old (g ++ (Foot.to_bytes f ++ r)) (length g) size ≡ done (true, f)
unfolding Foot.mem_read
mem_read-foot old f g r size v fits =
    rw
      (
        let e : ltb size 8 ≡ false = ground arith in e,
        ← length-foot f,
        read_middle g (Foot.to_bytes f) r,
        ◌>>=◌,
        timestamp-to_bytes f v,
      )
      refl

-- The first four bytes of a head's image are its syncword.
pub syncword-to_bytes :
    (h : HeadStruct) (g r : List ℕ)
    → IsHead h
    → le_value (take 4 (drop (length g) (g ++ (Head.to_bytes h ++ r)))) ≡ h.syncword
unfolding Head.to_bytes
syncword-to_bytes h g r v = rw (drop-append g) (le_value-le_bytes 4 h.syncword v.syncword_fits)

pub head-IsBytes : (h : HeadStruct) → IsBytes (Head.to_bytes h)
unfolding Head.to_bytes
head-IsBytes h = omega arith

pub foot-IsBytes : (f : FootStruct) → IsBytes (Foot.to_bytes f)
unfolding Foot.to_bytes
foot-IsBytes f = omega arith

-- The image with another fastcode: only the sixth byte changes.
pub to_bytes-fastcode :
    (h : HeadStruct) (c : ℕ)
    → c < 256
    → Head.to_bytes (record h { fastcode = c })
      ≡ set (Head.to_bytes (record h { fastcode = 0 })) 5 c
unfolding Head.to_bytes
to_bytes-fastcode h c fits = let e : c % 256 ≡ c = omega arith in rw e
