-- ===== src/Factory/Registry.antt =====
-- What is registered is what is called.
use septem_cpp.Common.{
  ℕ, ◌≡◌, ◌≢◌, refl, sym, ap, ◌∙◌, ◌⊎◌, inl, inr, List, [], ◌∷◌, true, false, if◌then◌else◌, Option,
  none, some, ◌==◌, Option-cases, Bool-cases,
}
use septem_cpp.Common.Int.{ℤ, pos, eq_int, eq_int-cases, lt_int}
use septem_cpp.Wire.Head.{Head as HeadStruct}
use septem_cpp.Factory.{
  Delegate, Delegates, lookup, insert_delegate, register_protocol_deserialize, is_protocol_register,
  call_protocol_deserialize,
}

module _ {W : Type 0} where
  -- A uid that is not in the map is not its first one, and not in the rest.
  absent_cons :
      (u j : ℤ) (g : Option (Delegate W)) (m : Delegates W)
      → lookup u ((j, g) ∷ m) ≡ none
      → (u ≢ j) × (lookup u m ≡ none)
  unfolding lookup
  absent_cons u j g m h = elim (eq_int-cases u j) [
    | inl (p, q) ↦ let x : some g ≡ none = sym (rw p refl) ∙ h in absurd cc
    | inr (p, q) ↦ (q, sym (rw p refl) ∙ h)
  ]

  pub lookup-insert_delegate :
      (u k : ℤ) (f : Option (Delegate W)) (m : Delegates W)
      → lookup u m ≡ none
      → lookup k (insert_delegate u f m) ≡ (if eq_int k u then some f else lookup k m)
  unfolding lookup insert_delegate
  lookup-insert_delegate u k f [] h = refl
  lookup-insert_delegate u k f ((j, g) ∷ m) h =
      let (away, rest) = absent_cons u j g m h in
      elim (Bool-cases (lt_int u j)) [
        | inl l ↦ rw l
        | inr l ↦ elim (eq_int-cases k j) [
          | inl (p, q) ↦ elim (eq_int-cases k u) [
            | inl (a, b) ↦ absurd (away (sym b ∙ q))
            | inr (a, b) ↦ rw (l, p, a)
          ]
          | inr (p, q) ↦ rw (l, p) (lookup-insert_delegate u k f m rest)
        ]
      ]

  -- Registering a uid succeeds exactly for a new one; afterwards that uid stands for the delegate
  -- that was registered first, and every other uid for what it stood for before.
  pub lookup-register :
      (u k : ℤ) (f : Option (Delegate W)) (m : Delegates W)
      → let (ok, m') = register_protocol_deserialize u f m in
        ((ok ≡ true)
          × (is_protocol_register u m ≡ false)
          × (lookup k m' ≡ (if eq_int k u then some f else lookup k m)))
        ⊎ ((ok ≡ false) × (is_protocol_register u m ≡ true) × (m' ≡ m))
  unfolding register_protocol_deserialize is_protocol_register
  lookup-register u k f m = elim (Option-cases (lookup u m)) [
    | inl h ↦ inl (
      rw (register_protocol_deserialize, h) refl,
      rw (is_protocol_register, h) refl,
      rw (register_protocol_deserialize, h) (lookup-insert_delegate u k f m h),
    )
    | inr (g, h) ↦ inr (
      rw (register_protocol_deserialize, h) refl,
      rw (is_protocol_register, h) refl,
      rw (register_protocol_deserialize, h) refl,
    )
  ]

  -- A packet with a head of a class that was registered with success goes to its delegate; one of a
  -- class that is not registered changes nothing.
  pub call-register :
      (u : ℕ) (f : Delegate W) (m m' : Delegates W) (head : HeadStruct) (buffer : List ℕ) (size : ℕ)
      (read : ℤ) (w : W)
      → register_protocol_deserialize (pos u) (some f) m ≡ (true, m')
      → call_protocol_deserialize m' head buffer size read w ≡ (
          if head.uid == u
          then f head buffer size read w
          else call_protocol_deserialize m head buffer size read w)
  unfolding call_protocol_deserialize
  call-register u f m m' head buffer size read w e =
      elim (lookup-register (pos u) (pos (head.uid)) (some f) m) [
        | inl (a, b, c) ↦
            let d = ap (λ r. lookup (pos (head.uid)) (r.1)) (sym e) ∙ c in
            elim (Bool-cases (head.uid == u)) [
              | inl h ↦ rw (call_protocol_deserialize, d, h) refl
              | inr h ↦ rw (call_protocol_deserialize, d, h) refl
            ]
        | inr (a, b, c) ↦ let x = sym a ∙ ap (λ r. r.0) e in absurd cc
      ]
