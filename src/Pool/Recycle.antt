-- ===== src/Pool/Recycle.antt =====
-- `TSharedRecyclePool` of Core/Templates/SeptemRecyclePool.hpp.
use septem_cpp.Common.{
  ℕ, zero, suc, ◌+◌, ◌-◌, ◌≤◌, ◌<◌, ◌≡◌, refl, List, [], ◌∷◌, ◌++◌, if◌then◌else◌, ltb, lt→ltb,
  false, ◌⊎◌, inl, inr, max, length, Option, none, some, Access, fault, done, ◌>>=◌, arith,
}
use septem_cpp.Common.Int.{ℤ, pos, negsuc, to_int32}

-- The objects that were ever made, by number, and the stack, its top first.
pub record RecyclePool (T : Type 0) : Type 0 where
  pub objects : List T
  pub stack : List ℕ

-- `count - size`, which is in the range of `int32`.
abbrev pub sub_ℕ : ℤ → ℕ → ℤ
sub_ℕ (pos c) n = if ltb c n then negsuc (n - c - 1) else pos (c - n)
sub_ℕ (negsuc c) n = negsuc (c + n)

-- The loop that pops `n` objects; `pop` of an empty stack is undefined.
unfoldable pub pop_stack : ℕ → List ℕ → Access (List ℕ)
pop_stack zero s = done s
pop_stack (suc n) [] = fault
pop_stack (suc n) (o ∷ s) = pop_stack n s

length-pop_stack :
    (n : ℕ) (s : List ℕ)
    → n ≤ length s
    → (r : List ℕ) × (pop_stack n s ≡ done r) × (length r + n ≡ length s)
unfolding pop_stack
length-pop_stack zero s h = (s, refl, omega arith)
length-pop_stack (suc n) [] h = elim h [ ]
length-pop_stack (suc n) (o ∷ s) h =
    let (r, e, l) = length-pop_stack n s (omega arith) in (r, e, omega arith)

sub_ℕ-lt : (c n : ℕ) → c < n → sub_ℕ (pos c) n ≡ negsuc (n - c - 1)
sub_ℕ-lt c n h = rw (lt→ltb c n h)

pub sub_ℕ-ge : (c n : ℕ) → n ≤ c → sub_ℕ (pos c) n ≡ pos (c - n)
sub_ℕ-ge c n h = let e : ltb c n ≡ false = ground (arith, h) in rw e

pub lt-or-ge : (c n : ℕ) → (c < n) ⊎ (n ≤ c)
lt-or-ge c n = ground arith

module _ {T : Type 0} where
  -- `std::make_shared<T>()`, for the value `new` of a new object.
  unfoldable pub make_shared : T → RecyclePool T → ℕ × RecyclePool T
  make_shared new p = (length (p.objects), record p { objects = p.objects ++ new ∷ [] })

  -- `m_pool.push(...)`.
  abbrev pub push : ℕ → RecyclePool T → RecyclePool T
  push o p = record p { stack = o ∷ p.stack }

  -- The loop that pushes `n` new objects.
  unfoldable pub push_new : T → ℕ → RecyclePool T → RecyclePool T
  unfolding make_shared
  push_new new zero p = p
  push_new new (suc n) p = let (o, q) = make_shared new p in push_new new n (push o q)

  unfoldable pub reset : T → ℤ → RecyclePool T → RecyclePool T
  unfolding push_new
  reset new pool_count p = elim (sub_ℕ pool_count (length (p.stack))) [
    | pos imax ↦ push_new new imax p
    | negsuc n ↦ p
  ]

  -- The constructor.
  unfoldable pub create : T → ℤ → RecyclePool T
  unfolding reset
  create new in_num = reset new in_num (record { objects = []; stack = [] })

  unfoldable pub resize : T → ℤ → RecyclePool T → Access (RecyclePool T)
  unfolding push_new pop_stack
  resize new pool_count p = elim (sub_ℕ pool_count (length (p.stack))) [
    | pos imax ↦ done (push_new new imax p)
    | negsuc n ↦ pop_stack (n + 1) (p.stack) >>= λ s. done (record p { stack = s })
  ]

  unfoldable pub num : RecyclePool T → ℤ
  num p = to_int32 (length (p.stack))

  unfoldable pub size : RecyclePool T → ℕ
  size p = length (p.stack)

  -- `Alloc` on the stack that it finds.
  abbrev pub alloc_from : List ℕ → T → RecyclePool T → ℕ × RecyclePool T
  alloc_from [] new p = make_shared new p
  alloc_from (o ∷ s) new p = (o, record p { stack = s })

  unfoldable pub alloc : T → RecyclePool T → ℕ × RecyclePool T
  unfolding make_shared
  alloc new p = alloc_from (p.stack) new p

  -- `Dealloc`, in both overloads.
  unfoldable pub dealloc : Option ℕ → RecyclePool T → RecyclePool T
  dealloc none p = p
  dealloc (some o) p = push o p

  length-push_new :
      (new : T) (n : ℕ) (p : RecyclePool T)
      → length ((push_new new n p).stack) ≡ length (p.stack) + n
  unfolding push_new make_shared
  length-push_new new zero p = omega arith
  length-push_new new (suc n) p = omega (
    arith,
    length-push_new new n
        (push (length (p.objects)) (record p { objects = p.objects ++ new ∷ [] })),
  )

  -- `Resize` to a count that is not negative ends with a pool of that size.
  pub size-resize :
      (new : T) (count : ℕ) (p : RecyclePool T)
      → (q : RecyclePool T) × (resize new (pos count) p ≡ done q) × (size q ≡ count)
  unfolding size resize
  size-resize new count p = elim (lt-or-ge count (length (p.stack))) [
    | inl h ↦
        let (r, e, l) =
          length-pop_stack (length (p.stack) - count - 1 + 1) (p.stack) (omega arith) in
        (
          record p { stack = r },
          rw (resize, sub_ℕ-lt count (length (p.stack)) h, e) refl,
          omega arith,
        )
    | inr h ↦
        let l = length-push_new new (count - length (p.stack)) p in
        (
          push_new new (count - length (p.stack)) p,
          rw (resize, sub_ℕ-ge count (length (p.stack)) h) refl,
          omega arith,
        )
  ]

  -- `Reset` grows the pool to the count and never shrinks it.
  pub size-reset :
      (new : T) (count : ℕ) (p : RecyclePool T)
      → size (reset new (pos count) p) ≡ max count (size p)
  unfolding size reset
  size-reset new count p = elim (lt-or-ge count (length (p.stack))) [
    | inl h ↦ rw (reset, sub_ℕ-lt count (length (p.stack)) h) (omega arith)
    | inr h ↦
        let l = length-push_new new (count - length (p.stack)) p in
        rw (reset, sub_ℕ-ge count (length (p.stack)) h) (omega arith)
  ]
