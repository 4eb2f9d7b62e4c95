-- ===== src/Pool/Ownership.antt =====
-- Who owns the objects of a `TSharedRecyclePool`: clients that give back only what they hold.
use septem_cpp.Common.{
  ℕ, zero, suc, ◌+◌, ◌≤◌, ◌<◌, ◌≡◌, refl, subst, List, [], ◌∷◌, ◌++◌, if◌then◌else◌, ◌==◌, length,
  length-append, length-set, set, some, Access, inl, inr, fault, abort, out_of_fuel, done, ◌>>=◌,
  arith,
}
use septem_cpp.Common.Int.{ℤ, pos, negsuc}
use septem_cpp.Pool.Recycle.{
  RecyclePool, make_shared, push, push_new, pop_stack, reset, create, resize, alloc, alloc_from,
  dealloc, lt-or-ge, sub_ℕ,
}

-- How often `x` stands in a list.
unfoldable pub occurrences : ℕ → List ℕ → ℕ
occurrences x [] = 0
occurrences x (y ∷ ys) = if x == y then occurrences x ys + 1 else occurrences x ys

occurrences-append :
    (x : ℕ) (l r : List ℕ) → occurrences x (l ++ r) ≡ occurrences x l + occurrences x r
unfolding occurrences
occurrences-append x [] r = omega arith
occurrences-append x (y ∷ l) r = ground (arith, occurrences-append x l r)

occurrences-pop_stack :
    (x n : ℕ) (s r : List ℕ) → pop_stack n s ≡ done r → occurrences x r ≤ occurrences x s
unfolding occurrences pop_stack
occurrences-pop_stack x zero s r e =
    let q : s ≡ r = cc in subst (λ z. occurrences x z ≤ occurrences x s) q (omega arith)
occurrences-pop_stack x (suc n) [] r e = absurd cc
occurrences-pop_stack x (suc n) (y ∷ s) r e =
    let i = occurrences-pop_stack x n s r e in ground (arith, i)

module _ {T : Type 0} where
  -- An object that was made stands once in the stack or among those that clients hold, or nowhere;
  -- no other object stands there.
  pub record IsOwned (p : RecyclePool T) (held : List ℕ) : Type 0 where
    pub once : (x : ℕ) → occurrences x (p.stack) + occurrences x held ≤ 1
    pub made : (x : ℕ) → length (p.objects) ≤ x → occurrences x (p.stack) + occurrences x held ≡ 0

  push_new-IsOwned :
      (new : T) (n : ℕ) (p : RecyclePool T) (held : List ℕ)
      → IsOwned p held
      → IsOwned (push_new new n p) held
  unfolding push_new make_shared occurrences
  push_new-IsOwned new zero p held w = w
  push_new-IsOwned new (suc n) p held w =
      let q = push (length (p.objects)) (record p { objects = p.objects ++ new ∷ [] }) in
      let l = length-append (p.objects) (new ∷ []) in
      push_new-IsOwned new n q held (record {
        once = λ x. ground (arith, w.once x, w.made x);
        made = λ x h. ground (arith, w.made x (omega arith));
      })

  reset-IsOwned :
      (new : T) (count : ℤ) (p : RecyclePool T) (held : List ℕ)
      → IsOwned p held
      → IsOwned (reset new count p) held
  unfolding reset
  reset-IsOwned new count p held w =
      elim (sub_ℕ count (length (p.stack)))
        as (λ d. IsOwned (elim d [ pos imax ↦ push_new new imax p | negsuc n ↦ p ]) held) [
          | pos imax ↦ push_new-IsOwned new imax p held w
          | negsuc n ↦ w
        ]

  -- A pool whose stack lost objects.
  fewer-IsOwned :
      (p : RecyclePool T) (s held : List ℕ)
      → ((x : ℕ) → occurrences x s ≤ occurrences x (p.stack))
      → IsOwned p held
      → IsOwned (record p { stack = s }) held
  fewer-IsOwned p s held h w = record {
    once = λ x. omega (arith, h x, w.once x);
    made = λ x k. omega (arith, h x, w.made x k);
  }

  popped-IsOwned :
      (n : ℕ) (m : Access (List ℕ)) (p q : RecyclePool T) (held : List ℕ)
      → pop_stack n (p.stack) ≡ m
      → (m >>= λ s. done (record p { stack = s })) ≡ done q
      → IsOwned p held
      → IsOwned q held
  popped-IsOwned n (done s) p q held e f w =
      let g : record p { stack = s } ≡ q = cc in
      subst (λ z. IsOwned z held) g
        (fewer-IsOwned p s held (λ x. occurrences-pop_stack x n (p.stack) s e) w)
  popped-IsOwned n fault p q held e f w = absurd cc
  popped-IsOwned n abort p q held e f w = absurd cc
  popped-IsOwned n out_of_fuel p q held e f w = absurd cc

  resized-IsOwned :
      (new : T) (d : ℤ) (p q : RecyclePool T) (held : List ℕ)
      → (elim d [
        | pos imax ↦ done (push_new new imax p)
        | negsuc n ↦ pop_stack (n + 1) (p.stack) >>= λ s. done (record p { stack = s })
      ])
        ≡ done q
      → IsOwned p held
      → IsOwned q held
  resized-IsOwned new (pos imax) p q held e w =
      let g : push_new new imax p ≡ q = cc in
      subst (λ z. IsOwned z held) g (push_new-IsOwned new imax p held w)
  resized-IsOwned new (negsuc n) p q held e w =
      popped-IsOwned (n + 1) (pop_stack (n + 1) (p.stack)) p q held refl e w

  pub resize-IsOwned :
      (new : T) (count : ℤ) (p q : RecyclePool T) (held : List ℕ)
      → resize new count p ≡ done q
      → IsOwned p held
      → IsOwned q held
  unfolding resize
  resize-IsOwned new count p q held e w =
      resized-IsOwned new (sub_ℕ count (length (p.stack))) p q held e w

  alloc_from-IsOwned :
      (new : T) (objects : List T) (s held : List ℕ)
      → let p : RecyclePool T = record { objects = objects; stack = s } in
        IsOwned p held → IsOwned ((alloc_from s new p).1) ((alloc_from s new p).0 ∷ held)
  unfolding make_shared occurrences
  alloc_from-IsOwned new objects [] held w =
      let l = length-append objects (new ∷ []) in
      record {
        once = λ x. ground (arith, w.once x, w.made x);
        made = λ x h. ground (arith, w.made x (omega arith));
      }
  alloc_from-IsOwned new objects (o ∷ s) held w = record {
    once = λ x. ground (arith, w.once x, w.made x);
    made = λ x h. ground (arith, w.made x h);
  }

  pub alloc-IsOwned :
      (new : T) (p : RecyclePool T) (held : List ℕ)
      → IsOwned p held
      → IsOwned ((alloc new p).1) ((alloc new p).0 ∷ held)
  unfolding alloc
  alloc-IsOwned new p held w = alloc_from-IsOwned new (p.objects) (p.stack) held w

  dealloc-IsOwned :
      (o : ℕ) (l r : List ℕ) (p : RecyclePool T)
      → IsOwned p (l ++ o ∷ r)
      → IsOwned (dealloc (some o) p) (l ++ r)
  unfolding dealloc occurrences
  dealloc-IsOwned o l r p w = record {
    once = λ x. ground (arith, w.once x, occurrences-append x l (o ∷ r), occurrences-append x l r);
    made =
        λ x h. ground (arith, w.made x h, occurrences-append x l (o ∷ r), occurrences-append x l r);
  }

  -- The runs of a pool and its clients, with the objects that these hold. A client may write any
  -- value to an object.
  pub data Run (new : T) : RecyclePool T → List ℕ → Type 0 where
    created : (count : ℤ) → Run new (create new count) []
    allocated :
        (p : RecyclePool T) (held : List ℕ)
        → Run new p held
        → Run new ((alloc new p).1) ((alloc new p).0 ∷ held)
    returned :
        (o : ℕ) (l r : List ℕ) (p : RecyclePool T)
        → Run new p (l ++ o ∷ r)
        → Run new (dealloc (some o) p) (l ++ r)
    was_reset :
        (count : ℤ) (p : RecyclePool T) (held : List ℕ)
        → Run new p held
        → Run new (reset new count p) held
    resized :
        (count : ℤ) (p q : RecyclePool T) (held : List ℕ)
        → Run new p held
        → resize new count p ≡ done q
        → Run new q held
    written :
        (o : ℕ) (x : T) (p : RecyclePool T) (held : List ℕ)
        → Run new p held
        → Run new (record p { objects = set (p.objects) o x }) held

  written-IsOwned :
      (o : ℕ) (x : T) (p : RecyclePool T) (held : List ℕ)
      → IsOwned p held
      → IsOwned (record p { objects = set (p.objects) o x }) held
  written-IsOwned o x p held w =
      let l = length-set (p.objects) o x in
      record { once = w.once; made = λ y h. w.made y (omega (arith, l, h)) }

  pub Run-IsOwned : (new : T) (p : RecyclePool T) (held : List ℕ) → Run new p held → IsOwned p held
  unfolding create occurrences
  Run-IsOwned new _ _ (created count) =
      reset-IsOwned new count (record { objects = []; stack = [] }) []
        (record { once = λ x. omega arith; made = λ x h. refl })
  Run-IsOwned new _ _ (allocated p held r) = alloc-IsOwned new p held (Run-IsOwned new p held r)
  Run-IsOwned new _ _ (returned o l s p r) =
      dealloc-IsOwned o l s p (Run-IsOwned new p (l ++ o ∷ s) r)
  Run-IsOwned new _ _ (was_reset count p held r) =
      reset-IsOwned new count p held (Run-IsOwned new p held r)
  Run-IsOwned new _ _ (resized count p q held r e) =
      resize-IsOwned new count p q held e (Run-IsOwned new p held r)
  Run-IsOwned new _ _ (written o x p held r) = written-IsOwned o x p held (Run-IsOwned new p held r)

  -- `Alloc` hands out an object that no client holds, and that is not in the pool any more.
  pub alloc-IsFree :
      (new : T) (p : RecyclePool T) (held : List ℕ)
      → Run new p held
      → let (o, q) = alloc new p in
        (occurrences o held ≡ 0) × (occurrences o (q.stack) ≡ 0) × (o < length (q.objects))
  unfolding occurrences
  alloc-IsFree new p held r =
      let w = alloc-IsOwned new p held (Run-IsOwned new p held r) in
      let o = (alloc new p).0 in
      let a = w.once o in
      let b = w.made o in
      (
        ground (arith, a),
        ground (arith, a),
        elim (lt-or-ge o (length ((alloc new p).1.objects))) [
          | inl h ↦ h
          | inr h ↦ let z = b h in absurd (ground (arith, z))
        ],
      )
