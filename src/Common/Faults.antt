-- ===== src/Common/Faults.antt =====
-- What a C++ function can come to: a value, or one of the ways in which it has none.
use Prim.Native.Nat.{ℕ, zero, suc, ◌≤◌, ◌<◌}
use mathlib.Core.Path.{◌≡◌, refl, ap}
use mathlib.Core.Logic.{◌≢◌}
use mathlib.Core.List.{List, [], ◌∷◌}
use mathlib.Core.Option.{some}
use mathlib.Core.Bool.{Bool, true, false}
use native.Mathlib.Omega.{arith}
use septem_cpp.Common.Lists.{length, set, get_elem?}
use septem_cpp.Common.Int.{ℤ, pos, negsuc}

-- `fault` is an access outside a block or through a null pointer, which C++ leaves undefined,
-- `abort` a failed `check`, and `out_of_fuel` a loop that the model did not finish.
pub data Access {ℓ} (A : Type ℓ) : Type ℓ where
  fault abort out_of_fuel : Access A
  done : A → Access A

infixl 5 ◌>>=◌ ◌>>◌
abbrev pub ◌>>=◌ {ℓ κ} : {A : Type ℓ} {B : Type κ} → Access A → (A → Access B) → Access B
fault >>= f = fault
abort >>= f = abort
out_of_fuel >>= f = out_of_fuel
done a >>= f = f a

abbrev pub ◌>>◌ {ℓ} : {B : Type ℓ} → Access (Unit {0}) → Access B → Access B
m >> k = m >>= λ _. k

-- `check(x)`.
abbrev pub check : Bool → Access (Unit {0})
check true = done tt
check false = abort

module _ {ℓ} {A : Type ℓ} where
  -- `p[i]` for reading.
  abbrev pub get : List A → ℕ → Access A
  get [] i = fault
  get (x ∷ xs) zero = done x
  get (x ∷ xs) (suc i) = get xs i

  -- `p[i]` at an `int32` index.
  abbrev pub get_int : List A → ℤ → Access A
  get_int xs (pos i) = get xs i
  get_int xs (negsuc n) = fault

  -- `p[i] = v`.
  abbrev pub put : List A → ℕ → A → Access (List A)
  put [] i v = fault
  put (x ∷ xs) zero v = done (v ∷ xs)
  put (x ∷ xs) (suc i) v = put xs i v >>= λ ys. done (x ∷ ys)

  -- The element at `i`, or `d` out of range: for statements.
  abbrev pub get_or : List A → ℕ → A → A
  get_or [] i d = d
  get_or (x ∷ xs) zero d = x
  get_or (x ∷ xs) (suc i) d = get_or xs i d

module _ {ℓ} {A : Type ℓ} where
  pub get-done : (xs : List A) (i : ℕ) (d : A) → i < length xs → get xs i ≡ done (get_or xs i d)
  get-done [] i d h = elim h [ ]
  get-done (x ∷ xs) zero d h = refl
  get-done (x ∷ xs) (suc i) d h = get-done xs i d (omega arith)

  pub get-fault : (xs : List A) (i : ℕ) → length xs ≤ i → get xs i ≡ fault
  get-fault [] i h = refl
  get-fault (x ∷ xs) zero h = elim h [ ]
  get-fault (x ∷ xs) (suc i) h = get-fault xs i (omega arith)

  pub put-done : (xs : List A) (i : ℕ) (v : A) → i < length xs → put xs i v ≡ done (set xs i v)
  put-done [] i v h = elim h [ ]
  put-done (x ∷ xs) zero v h = refl
  put-done (x ∷ xs) (suc i) v h = rw (put-done xs i v (omega arith))

  pub get_or-set_self :
      (xs : List A) (i : ℕ) (v d : A) → i < length xs → get_or (set xs i v) i d ≡ v
  get_or-set_self [] i v d h = elim h [ ]
  get_or-set_self (x ∷ xs) zero v d h = refl
  get_or-set_self (x ∷ xs) (suc i) v d h = get_or-set_self xs i v d (omega arith)

  pub get_or-set_ne :
      (xs : List A) (i j : ℕ) (v d : A) → i ≢ j → get_or (set xs i v) j d ≡ get_or xs j d
  get_or-set_ne [] i j v d h = refl
  get_or-set_ne (x ∷ xs) zero zero v d h = absurd (h refl)
  get_or-set_ne (x ∷ xs) zero (suc j) v d h = refl
  get_or-set_ne (x ∷ xs) (suc i) zero v d h = refl
  get_or-set_ne (x ∷ xs) (suc i) (suc j) v d h = get_or-set_ne xs i j v d (λ e. h (ap suc e))

  pub get-done_of : (xs : List A) (i : ℕ) (a : A) → get_elem? xs i ≡ some a → get xs i ≡ done a
  get-done_of [] i a h = cc
  get-done_of (x ∷ xs) zero a h = cc
  get-done_of (x ∷ xs) (suc i) a h = get-done_of xs i a h

-- The first part of a call that is done.
pub bind-done {ℓ κ} :
    {A : Type ℓ} {B : Type κ} (m : Access A) (f : A → Access B) {b : B}
    → (m >>= f) ≡ done b
    → (a : A) × (m ≡ done a) × (f a ≡ done b)
bind-done (done a) f e = (a, refl, e)
bind-done fault f e = absurd cc
bind-done abort f e = absurd cc
bind-done out_of_fuel f e = absurd cc
