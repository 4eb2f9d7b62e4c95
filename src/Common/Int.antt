-- ===== src/Common/Int.antt =====
-- Signed integers over the native numbers, for `int32` indices that may be -1.
use Prim.Native.Nat.{ℕ, ◌+◌, ◌-◌, ◌^◌, ◌%◌, ◌<◌}
use mathlib.Core.Path.{◌≡◌, ap, sym, ◌∙◌}
use mathlib.Core.Logic.{◌≢◌, ◌⊎◌, inl, inr}
use mathlib.Core.Bool.{Bool, true, false}
use native.Mathlib.Omega.{arith}
use septem_cpp.Common.Tests.{ltb, if◌then◌else◌, ◌==◌, lt→ltb, Bool-cases}

-- `negsuc n` is -(n + 1).
pub data ℤ : Type 0 where
  pos : ℕ → ℤ
  negsuc : ℕ → ℤ

-- The number that a 32-bit pattern stands for as an `int32`.
abbrev pub signed32 : ℕ → ℤ
signed32 w = if ltb w (2 ^ 31) then pos w else negsuc (2 ^ 32 - w - 1)

-- `i + k`.
unfoldable pub add_ℕ : ℤ → ℕ → ℤ
add_ℕ (pos n) k = pos (n + k)
add_ℕ (negsuc n) k = if ltb n k then pos (k - n - 1) else negsuc (n - k)

-- A number as an `int32`, as a cast of a size gives it.
abbrev pub to_int32 : ℕ → ℤ
to_int32 n = signed32 (n % 2 ^ 32)

abbrev pub eq_int : ℤ → ℤ → Bool
eq_int (pos m) (pos n) = m == n
eq_int (negsuc m) (negsuc n) = m == n
eq_int _ _ = false

abbrev pub lt_int : ℤ → ℤ → Bool
lt_int (pos m) (pos n) = ltb m n
lt_int (pos m) (negsuc n) = false
lt_int (negsuc m) (pos n) = true
lt_int (negsuc m) (negsuc n) = ltb n m

pub eq_int_sound : (i j : ℤ) → eq_int i j ≡ true → i ≡ j
eq_int_sound (pos m) (pos n) h = let e : m ≡ n = ground (arith, h) in ap pos e
eq_int_sound (negsuc m) (negsuc n) h = let e : m ≡ n = ground (arith, h) in ap negsuc e
eq_int_sound (pos m) (negsuc n) h = cc
eq_int_sound (negsuc m) (pos n) h = cc

pub eq_int_self : (i : ℤ) → eq_int i i ≡ true
eq_int_self (pos n) = ground arith
eq_int_self (negsuc n) = ground arith

-- A size below 2 ^ 31 keeps its value.
pub to_int32_small : (n : ℕ) → n < 2 ^ 31 → to_int32 n ≡ pos n
to_int32_small n h = let e : n % 2 ^ 32 ≡ n = omega arith in rw (e, lt→ltb n (2 ^ 31) h)

pub eq_int-cases : (i j : ℤ) → ((eq_int i j ≡ true) × (i ≡ j)) ⊎ ((eq_int i j ≡ false) × (i ≢ j))
eq_int-cases i j = elim (Bool-cases (eq_int i j)) [
  | inl h ↦ inl (h, eq_int_sound i j h)
  | inr h ↦ inr (h, λ e. let p = sym (eq_int_self i) ∙ ap (eq_int i) e ∙ h in cc)
]
