-- ===== src/Wire/Xor.antt =====
-- The exclusive or of a block of bytes, `for (i = 0; i < n; ++i) ret ^= ptr[i]`, and its laws.
use septem_cpp.Common.{
  ℕ, zero, suc, ◌<◌, ◌≡◌, ◌≢◌, refl, sym, ap, ◌∙◌, List, [], ◌∷◌, ◌++◌, append_assoc, Bool, true,
  false, ◌==◌, Access, done, ◌>>=◌, read, IsBytes, bit_xor, zero-bit_xor, bit_xor-zero,
  bit_xor_self, bit_xor_assoc, bit_xor-lt, eq_of_bit_xor, bit_xor_replace, bit_xor_cancel, read_all,
  Bool-cases, ==_iff, length-set, inl, inr, length, get_or, set, arith,
}

unfoldable pub xor_loop : ℕ → List ℕ → ℕ
xor_loop ret [] = ret
xor_loop ret (b ∷ bs) = xor_loop (bit_xor ret b) bs

-- `FSNetPacket::FastIntegrity`.
unfoldable pub fast_integrity_of : List ℕ → ℕ → ℕ → Access Bool
unfolding xor_loop
fast_integrity_of data_ptr data_length fastcode = do
  block ← read data_ptr 0 data_length
  done (xor_loop 0 block == fastcode)

pub xor_loop_acc : (r : ℕ) (bs : List ℕ) → xor_loop r bs ≡ bit_xor r (xor_loop 0 bs)
unfolding xor_loop
xor_loop_acc r [] = sym (bit_xor-zero r)
xor_loop_acc r (b ∷ bs) =
    xor_loop_acc (bit_xor r b) bs
    ∙ bit_xor_assoc r b (xor_loop 0 bs)
    ∙ ap (bit_xor r) (
        ap (λ x. bit_xor x (xor_loop 0 bs)) (sym (zero-bit_xor b))
        ∙ sym (xor_loop_acc (bit_xor 0 b) bs))

pub xor_loop-cons : (b : ℕ) (bs : List ℕ) → xor_loop 0 (b ∷ bs) ≡ bit_xor b (xor_loop 0 bs)
unfolding xor_loop
xor_loop-cons b bs = rw (zero-bit_xor b) (xor_loop_acc b bs)

pub xor_loop-append :
    (xs ys : List ℕ) → xor_loop 0 (xs ++ ys) ≡ bit_xor (xor_loop 0 xs) (xor_loop 0 ys)
xor_loop-append [] ys = unfold xor_loop in sym (zero-bit_xor (xor_loop 0 ys))
xor_loop-append (x ∷ xs) ys =
    xor_loop-cons x (xs ++ ys)
    ∙ ap (bit_xor x) (xor_loop-append xs ys)
    ∙ sym (bit_xor_assoc x (xor_loop 0 xs) (xor_loop 0 ys))
    ∙ ap (λ z. bit_xor z (xor_loop 0 ys)) (sym (xor_loop-cons x xs))

-- Adding a last part to a running total.
pub total_xor :
    (hd pay ft : List ℕ) (code : ℕ)
    → code ≡ xor_loop 0 (hd ++ pay)
    → bit_xor code (xor_loop 0 ft) ≡ xor_loop 0 (hd ++ (pay ++ ft))
total_xor hd pay ft code e =
    ap (λ c. bit_xor c (xor_loop 0 ft)) e
    ∙ sym (xor_loop-append (hd ++ pay) ft)
    ∙ ap (xor_loop 0) (append_assoc hd pay ft)

pub xor_loop-lt : (bs : List ℕ) → IsBytes bs → xor_loop 0 bs < 256
xor_loop-lt [] h = unfold xor_loop in omega arith
xor_loop-lt (b ∷ bs) (p, q) =
    rw (xor_loop-cons b bs) (bit_xor-lt 8 b (xor_loop 0 bs) p (xor_loop-lt bs q))

-- The total changes by the exclusive or of the old byte and the new one.
pub xor_loop-set :
    (bs : List ℕ) (i v : ℕ)
    → i < length bs
    → xor_loop 0 (set bs i v) ≡ bit_xor (xor_loop 0 bs) (bit_xor (get_or bs i 0) v)
xor_loop-set [] i v h = elim h [ ]
xor_loop-set (x ∷ xs) zero v h =
    xor_loop-cons v xs
    ∙ sym (bit_xor_replace x v (xor_loop 0 xs))
    ∙ ap (λ z. bit_xor z (bit_xor x v)) (sym (xor_loop-cons x xs))
xor_loop-set (x ∷ xs) (suc i) v h =
    xor_loop-cons x (set xs i v)
    ∙ ap (bit_xor x) (xor_loop-set xs i v (omega arith))
    ∙ sym (bit_xor_assoc x (xor_loop 0 xs) (bit_xor (get_or xs i 0) v))
    ∙ ap (λ z. bit_xor z (bit_xor (get_or xs i 0) v)) (sym (xor_loop-cons x xs))

fast_integrity_all :
    (block : List ℕ) (n fastcode : ℕ)
    → n ≡ length block
    → fast_integrity_of block n fastcode ≡ done (xor_loop 0 block == fastcode)
unfolding fast_integrity_of
fast_integrity_all block n fastcode e = rw (e, read_all block)

-- A block that passes the check fails it when one of its bytes is changed to another value.
pub fast_integrity_single_byte :
    (block : List ℕ) (fastcode i v : ℕ)
    → i < length block
    → v ≢ get_or block i 0
    → fast_integrity_of block (length block) fastcode ≡ done true
    → fast_integrity_of (set block i v) (length block) fastcode ≡ done false
fast_integrity_single_byte block fastcode i v h changed passes =
    fast_integrity_all (set block i v) (length block) fastcode (sym (length-set block i v))
    ∙ ap done (elim (Bool-cases (xor_loop 0 (set block i v) == fastcode)) [
      | inl same ↦ absurd (changed (sym (eq_of_bit_xor old v (none same))))
      | inr differ ↦ differ
    ])
  where
    old : ℕ
    old = get_or block i 0

    total : xor_loop 0 block ≡ fastcode
    total =
        (==_iff (xor_loop 0 block) fastcode).0
          (let e = fast_integrity_all block (length block) fastcode refl in cc)

    none : (xor_loop 0 (set block i v) == fastcode) ≡ true → bit_xor old v ≡ 0
    none same =
        let e : bit_xor (xor_loop 0 block) (bit_xor old v) ≡ xor_loop 0 block =
          sym (xor_loop-set block i v h)
          ∙ (==_iff (xor_loop 0 (set block i v)) fastcode).0 same
          ∙ sym total in
        sym (bit_xor_cancel (xor_loop 0 block) (bit_xor old v))
        ∙ ap (bit_xor (xor_loop 0 block)) e
        ∙ bit_xor_self (xor_loop 0 block)
