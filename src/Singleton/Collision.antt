-- ===== src/Singleton/Collision.antt =====
-- Two calls of `Get` that have both found a null pointer, under any schedule of any threads.
use septem_cpp.Common.{
  ℕ, ◌≡◌, ◌≢◌, refl, sym, ap, ◌∙◌, subst, ◌⊎◌, inl, inr, List, [], ◌∷◌, ◌==◌, Bool-cases, none,
  some, Option-cases, get_elem?, get_elem?-set_self, get_elem?-set_ne, get_elem?-eq-some_lt, Access,
  abort, done, ◌>>=◌, arith, ◌+◌,
}
use septem_cpp.Singleton.{
  Place, testing, locking, creating, unlocking, returning, finished, System, go_to, is_null,
  new_singleton, turn, step, run,
}

-- Thread `x` has found a null pointer and has not made its object.
abbrev pub IsBehindTest : ℕ → System → Type 0
IsBehindTest x s =
    (get_elem? (s.places) x ≡ some locking) ⊎ (get_elem? (s.places) x ≡ some creating)

-- The pointer is that of an object.
abbrev HasObject : System → Type 0
HasObject s = (o : ℕ) × (s.singleton ≡ some o)

-- What the turn of thread `k` leaves alone.
record Moves (k : ℕ) (s t : System) : Type 0 where
  others : (y : ℕ) → k ≢ y → get_elem? (t.places) y ≡ get_elem? (s.places) y
  kept : HasObject s → HasObject t

-- A turn fails the check, or it changes one place and no pointer to an object.
abbrev Moved : ℕ → System → Access System → Type 0
Moved k s m = (m ≡ abort) ⊎ ((t : System) × (m ≡ done t) × Moves k s t)

go_to-Moves :
    (k : ℕ) (p : Place) (s t : System)
    → t.places ≡ s.places
    → (HasObject s → HasObject t)
    → Moves k s (go_to k p t)
go_to-Moves k p s t e h = record {
  others = λ y n. get_elem?-set_ne (t.places) k y p n ∙ ap (λ l. get_elem? l y) e;
  kept = h;
}

turn-Moved : (p : Place) (k : ℕ) (s : System) → Moved k s (turn p k s)
unfolding turn new_singleton
turn-Moved testing k s = elim (Bool-cases (is_null (s.singleton))) [
  | inl h ↦ inr (_, rw h refl, go_to-Moves k locking s s refl (λ o. o))
  | inr h ↦ inr (_, rw h refl, go_to-Moves k returning s s refl (λ o. o))
]
turn-Moved locking k s = elim (Bool-cases (is_null (s.lock))) [
  | inl h ↦ inr (_, rw h refl, go_to-Moves k creating s (record s { lock = some k }) refl (λ o. o))
  | inr h ↦ inr (s, rw h refl, record { others = λ y n. refl; kept = λ o. o })
]
turn-Moved creating k s = elim (Option-cases (s.singleton)) [
  | inl h ↦ inr (
    _,
    rw h refl,
    go_to-Moves k unlocking s (record s { singleton = some (s.made); made = s.made + 1 }) refl
        (λ o. (s.made, refl)),
  )
  | inr (o, h) ↦ inl (rw h refl)
]
turn-Moved unlocking k s =
    inr (_, refl, go_to-Moves k returning s (record s { lock = none }) refl (λ o. o))
turn-Moved returning k s = inr (_, refl, go_to-Moves k (finished (s.singleton)) s s refl (λ o. o))
turn-Moved (finished r) k s = inr (s, refl, record { others = λ y n. refl; kept = λ o. o })

step-Moved : (k : ℕ) (s : System) → Moved k s (step k s)
unfolding step
step-Moved k s = elim (Option-cases (get_elem? (s.places) k)) [
  | inl h ↦ inr (s, rw (step, h) refl, record { others = λ y n. refl; kept = λ o. o })
  | inr (p, h) ↦
      subst (Moved k s) (let e : turn p k s ≡ step k s = rw (step, h) refl in e) (turn-Moved p k s)
]

-- The turn of a thread behind the test: it stays there, or it makes the only object, or it fails the
-- check because there is one.
abbrev Advanced : ℕ → System → Access System → Type 0
Advanced x s m =
    (m ≡ abort)
    ⊎ ((t : System) × (m ≡ done t)
        × Moves x s t
        × (IsBehindTest x t ⊎ HasObject t)
        × (HasObject s → IsBehindTest x t))

step-Advanced : (x : ℕ) (s : System) → IsBehindTest x s → Advanced x s (step x s)
unfolding step turn new_singleton
step-Advanced x s (inl h) = elim (Bool-cases (is_null (s.lock))) [
  | inl l ↦
      let t : System = go_to x creating (record s { lock = some x }) in
      let b = get_elem?-set_self (s.places) x creating (get_elem?-eq-some_lt (s.places) x h) in
      inr (
        t,
        rw (step, h, turn, l) refl,
        go_to-Moves x creating s (record s { lock = some x }) refl (λ o. o),
        inl (inr b),
        λ o. inr b,
      )
  | inr l ↦ inr (
    s,
    rw (step, h, turn, l) refl,
    record { others = λ y n. refl; kept = λ o. o },
    inl (inl h),
    λ o. inl h,
  )
]
step-Advanced x s (inr h) = elim (Option-cases (s.singleton)) [
  | inl e ↦
      let u : System = record s { singleton = some (s.made); made = s.made + 1 } in
      inr (
        go_to x unlocking u,
        rw (step, h, turn, new_singleton, e) refl,
        go_to-Moves x unlocking s u refl (λ o. (s.made, refl)),
        inr (s.made, refl),
        λ (o, q). let z = sym e ∙ q in absurd cc,
      )
  | inr (o, e) ↦ inl (rw (step, h, turn, new_singleton, e) refl)
]

stays_behind : (k y : ℕ) (s t : System) → Moves k s t → k ≢ y → IsBehindTest y s → IsBehindTest y t
stays_behind k y s t m n (inl h) = inl (m.others y n ∙ h)
stays_behind k y s t m n (inr h) = inr (m.others y n ∙ h)

-- One of the two threads cannot return an object any more.
abbrev IsStuck : ℕ → System → Type 0
IsStuck x s = IsBehindTest x s × HasObject s

abbrev Collision : ℕ → ℕ → System → Type 0
Collision i j s = (IsBehindTest i s × IsBehindTest j s) ⊎ (IsStuck i s ⊎ IsStuck j s)

abbrev StepOutcome : (System → Type 0) → Access System → Type 0
StepOutcome P m = (m ≡ abort) ⊎ ((t : System) × (m ≡ done t) × P t)

IsStuck-step : (k x : ℕ) (s : System) → IsStuck x s → StepOutcome (IsStuck x) (step k s)
IsStuck-step k x s (b, o) = elim (Bool-cases (k == x)) [
  | inl e ↦
      let q : x ≡ k = ground arith in
      subst (λ z. StepOutcome (IsStuck x) (step z s)) q
        (elim (step-Advanced x s b) [
          | inl a ↦ inl a
          | inr (t, a, m, d, c) ↦ inr (t, a, (c o, m.kept o))
        ])
  | inr e ↦
      let n : k ≢ x = λ q. absurd (ground (arith, q, e)) in
      elim (step-Moved k s) [
        | inl a ↦ inl a
        | inr (t, a, m) ↦ inr (t, a, (stays_behind k x s t m n b, m.kept o))
      ]
]

-- The turn of one of the two.
pair_step :
    (i j : ℕ) (s : System)
    → i ≢ j
    → IsBehindTest i s
    → IsBehindTest j s
    → StepOutcome (Collision i j) (step i s)
pair_step i j s n bi bj = elim (step-Advanced i s bi) [
  | inl a ↦ inl a
  | inr (t, a, m, inl b, c) ↦ inr (t, a, inl (b, stays_behind i j s t m n bj))
  | inr (t, a, m, inr o, c) ↦ inr (t, a, inr (inr (stays_behind i j s t m n bj, o)))
]

or_later :
    (P Q : System → Type 0) (m : Access System)
    → ((t : System) → P t → Q t)
    → StepOutcome P m
    → StepOutcome Q m
or_later P Q m f (inl a) = inl a
or_later P Q m f (inr (t, a, h)) = inr (t, a, f t h)

swapped : (i j : ℕ) (t : System) → Collision j i t → Collision i j t
swapped i j t (inl (a, b)) = inl (b, a)
swapped i j t (inr (inl a)) = inr (inr a)
swapped i j t (inr (inr a)) = inr (inl a)

Collision-step :
    (k i j : ℕ) (s : System) → i ≢ j → Collision i j s → StepOutcome (Collision i j) (step k s)
Collision-step k i j s n (inr (inl w)) =
    or_later (IsStuck i) (Collision i j) (step k s) (λ t h. inr (inl h)) (IsStuck-step k i s w)
Collision-step k i j s n (inr (inr w)) =
    or_later (IsStuck j) (Collision i j) (step k s) (λ t h. inr (inr h)) (IsStuck-step k j s w)
Collision-step k i j s n (inl (bi, bj)) = elim (Bool-cases (k == i)) [
  | inl e ↦
      let q : i ≡ k = ground arith in
      subst (λ z. StepOutcome (Collision i j) (step z s)) q (pair_step i j s n bi bj)
  | inr e ↦ elim (Bool-cases (k == j)) [
    | inl f ↦
        let q : j ≡ k = ground arith in
        subst (λ z. StepOutcome (Collision i j) (step z s)) q
          (or_later (Collision j i) (Collision i j) (step j s) (swapped i j)
            (pair_step j i s (λ h. n (sym h)) bj bi))
    | inr f ↦
        let ni : k ≢ i = λ q. absurd (ground (arith, q, e)) in
        let nj : k ≢ j = λ q. absurd (ground (arith, q, f)) in
        elim (step-Moved k s) [
          | inl a ↦ inl a
          | inr (t, a, m) ↦
              inr (t, a, inl (stays_behind k i s t m ni bi, stays_behind k j s t m nj bj))
        ]
  ]
]

run-Collision :
    (is : List ℕ) (i j : ℕ) (s : System)
    → i ≢ j
    → Collision i j s
    → StepOutcome (Collision i j) (run is s)
unfolding run
run-Collision [] i j s n w = inr (s, refl, w)
run-Collision (k ∷ is) i j s n w = elim (Collision-step k i j s n w) [
  | inl a ↦ inl (rw (a, ◌>>=◌) refl)
  | inr (t, a, h) ↦
      subst (StepOutcome (Collision i j))
        (let e : run is t ≡ (step k s >>= run is) = rw (a, ◌>>=◌) refl in e)
        (run-Collision is i j t n h)
]

-- One of the two has not returned.
abbrev pub IsOneBehind : ℕ → ℕ → System → Type 0
IsOneBehind i j t = IsBehindTest i t ⊎ IsBehindTest j t

one_behind : (i j : ℕ) (t : System) → Collision i j t → IsOneBehind i j t
one_behind i j t (inl (a, b)) = inl a
one_behind i j t (inr (inl (a, o))) = inl a
one_behind i j t (inr (inr (a, o))) = inr a

-- Once two different threads are past the test of Get that found a null pointer, and neither has
-- made its object: under every schedule of these and any other threads, either the check of the
-- constructor fails, or at least one of the two has still not made an object, and so has not
-- returned.
pub run-IsOneBehind :
    (i j : ℕ) (is : List ℕ) (s : System)
    → i ≢ j
    → IsBehindTest i s
    → IsBehindTest j s
    → (run is s ≡ abort) ⊎ ((t : System) × (run is s ≡ done t) × IsOneBehind i j t)
run-IsOneBehind i j is s n bi bj =
    or_later (Collision i j) (IsOneBehind i j) (run is s) (one_behind i j)
      (run-Collision is i j s n (inl (bi, bj)))
