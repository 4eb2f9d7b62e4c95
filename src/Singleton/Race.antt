-- ===== src/Singleton/Race.antt =====
-- What the schedules of `Get` lead to.
use septem_cpp.Common.{
  ℕ, ◌+◌, ◌≡◌, ◌≢◌, refl, ap, sym, ◌∙◌, subst, ◌⊎◌, inl, inr, List, [], ◌∷◌, Option, none, some,
  Option-cases, set, get_elem?, get_elem?-replicate, get_elem?-set_self, get_elem?-set_ne,
  get_elem?-eq-some_lt, length-set, ==-cases, Access, abort, done, arith,
}
use septem_cpp.Singleton.{
  Place, testing, locking, creating, unlocking, returning, finished, System, go_to, new_singleton,
  turn, step, run, start,
}

-- What a thread's place says of the pointer and the lock.
abbrev pub IsPlaced : Option ℕ → Option ℕ → ℕ → Place → Type 0
IsPlaced g l i testing = Unit {0}
IsPlaced g l i locking = Unit {0}
IsPlaced g l i creating = l ≡ some i
IsPlaced g l i unlocking = (l ≡ some i) × (g ≡ some 0)
IsPlaced g l i returning = g ≡ some 0
IsPlaced g l i (finished r) = (r ≡ some 0) × (g ≡ some 0)

-- One object at most was made, which the pointer holds; a thread between lock and unlock has the
-- lock; a thread that finished returned the one object.
pub record IsSingle (s : System) : Type 0 where
  pub one : ((s.singleton ≡ none) × (s.made ≡ 0)) ⊎ ((s.singleton ≡ some 0) × (s.made ≡ 1))
  pub placed :
      (j : ℕ) (p : Place) → get_elem? (s.places) j ≡ some p → IsPlaced (s.singleton) (s.lock) j p

-- The threads other than `i` keep what their places say, and `i` has a new place.
IsPlaced-set :
    (g l : Option ℕ) (places : List Place) (i : ℕ) (p : Place)
    → ((j : ℕ) (q : Place) → i ≢ j → get_elem? places j ≡ some q → IsPlaced g l j q)
    → IsPlaced g l i p
    → (j : ℕ) (q : Place) → get_elem? (set places i p) j ≡ some q
    → IsPlaced g l j q
IsPlaced-set g l places i p others own j q e = elim (==-cases i j) [
  | inl (_, h) ↦
      let lt = get_elem?-eq-some_lt (set places i p) j e in
      let len = length-set places i p in
      let same : p ≡ q = cc (e, h, get_elem?-set_self places i p (omega arith)) in
      subst (λ k. IsPlaced g l k q) h (subst (IsPlaced g l i) same own)
  | inr (_, h) ↦ others j q h (sym (get_elem?-set_ne places i j p h) ∙ e)
]

IsPlaced-locked :
    (g : Option ℕ) (i j : ℕ) (q : Place) → IsPlaced g none j q → IsPlaced g (some i) j q
IsPlaced-locked g i j testing w = tt
IsPlaced-locked g i j locking w = tt
IsPlaced-locked g i j creating w = absurd cc
IsPlaced-locked g i j unlocking (a, b) = absurd cc
IsPlaced-locked g i j returning w = w
IsPlaced-locked g i j (finished r) w = w

IsPlaced-unlocked :
    (g : Option ℕ) (i j : ℕ) (q : Place) → i ≢ j → IsPlaced g (some i) j q → IsPlaced g none j q
IsPlaced-unlocked g i j testing h w = tt
IsPlaced-unlocked g i j locking h w = tt
IsPlaced-unlocked g i j creating h w = absurd (h cc)
IsPlaced-unlocked g i j unlocking h (a, b) = absurd (h cc)
IsPlaced-unlocked g i j returning h w = w
IsPlaced-unlocked g i j (finished r) h w = w

IsPlaced-created :
    (l : Option ℕ) (j : ℕ) (q : Place) → IsPlaced none l j q → IsPlaced (some 0) l j q
IsPlaced-created l j testing w = tt
IsPlaced-created l j locking w = tt
IsPlaced-created l j creating w = w
IsPlaced-created l j unlocking (a, b) = absurd cc
IsPlaced-created l j returning w = absurd cc
IsPlaced-created l j (finished r) (a, b) = absurd cc

-- A turn ends in such a state again, or with a failed `check`.
abbrev pub SingleOrAbort : Access System → Type 0
SingleOrAbort m = (m ≡ abort) ⊎ ((s : System) × (m ≡ done s) × IsSingle s)

go_to-IsSingle :
    (i : ℕ) (p : Place) (s : System)
    → IsSingle s
    → IsPlaced (s.singleton) (s.lock) i p
    → IsSingle (go_to i p s)
go_to-IsSingle i p s w own = record {
  one = w.one;
  placed = IsPlaced-set (s.singleton) (s.lock) (s.places) i p (λ j q n k. w.placed j q k) own;
}

turn-IsSingle :
    (p : Place) (i : ℕ) (s : System)
    → get_elem? (s.places) i ≡ some p
    → IsSingle s
    → SingleOrAbort (turn p i s)
unfolding turn new_singleton
turn-IsSingle testing i s e w = elim (Option-cases (s.singleton)) [
  | inl h ↦ inr (go_to i locking s, rw h refl, go_to-IsSingle i locking s w tt)
  | inr (o, h) ↦
      let own : s.singleton ≡ some 0 = elim (w.one) [ inl (a, b) ↦ absurd cc | inr (a, b) ↦ a ] in
      inr (go_to i returning s, rw h refl, go_to-IsSingle i returning s w own)
]
turn-IsSingle locking i s e w = elim (Option-cases (s.lock)) [
  | inl h ↦ inr (
    go_to i creating (record s { lock = some i }),
    rw h refl,
    record {
      one = w.one;
      placed =
          IsPlaced-set (s.singleton) (some i) (s.places) i creating
            (λ j q n k.
              IsPlaced-locked (s.singleton) i j q
                (subst (λ l. IsPlaced (s.singleton) l j q) h (w.placed j q k)))
            refl;
    },
  )
  | inr (o, h) ↦ inr (s, rw h refl, w)
]
turn-IsSingle creating i s e w = elim (Option-cases (s.singleton)) [
  | inl h ↦
      let made : s.made ≡ 0 = elim (w.one) [ inl (a, b) ↦ b | inr (a, b) ↦ absurd cc ] in
      let t : System = record s {
        singleton = some (s.made);
        made = s.made + 1;
        places = set (s.places) i unlocking;
      } in
      inr (
        t,
        rw h refl,
        record {
          one = inr (ap some made, omega arith);
          placed =
              subst
                (λ m.
                  (j : ℕ) (p : Place)
                  → get_elem? (set (s.places) i unlocking) j ≡ some p
                  → IsPlaced (some m) (s.lock) j p)
                (sym made)
                (IsPlaced-set (some 0) (s.lock) (s.places) i unlocking
                  (λ j q n k.
                    IsPlaced-created (s.lock) j q
                      (subst (λ g. IsPlaced g (s.lock) j q) h (w.placed j q k)))
                  (w.placed i creating e, refl));
        },
      )
  | inr (o, h) ↦ inl (rw h refl)
]
turn-IsSingle unlocking i s e w =
    let (a, b) = w.placed i unlocking e in
    inr (
      go_to i returning (record s { lock = none }),
      refl,
      record {
        one = w.one;
        placed =
            IsPlaced-set (s.singleton) none (s.places) i returning
              (λ j q n k.
                IsPlaced-unlocked (s.singleton) i j q n
                  (subst (λ l. IsPlaced (s.singleton) l j q) a (w.placed j q k)))
              b;
      },
    )
turn-IsSingle returning i s e w =
    let g = w.placed i returning e in
    inr (
      go_to i (finished (s.singleton)) s,
      refl,
      go_to-IsSingle i (finished (s.singleton)) s w (g, g),
    )
turn-IsSingle (finished r) i s e w = inr (s, refl, w)

step-IsSingle : (i : ℕ) (s : System) → IsSingle s → SingleOrAbort (step i s)
unfolding step
step-IsSingle i s w = elim (Option-cases (get_elem? (s.places) i)) [
  | inl h ↦ inr (s, rw (step, h) refl, w)
  | inr (p, h) ↦ subst SingleOrAbort (sym (rw (step, h) refl)) (turn-IsSingle p i s h w)
]

-- Whatever the schedule, either a `check` of the constructor failed, or one object at most was made
-- and every thread that finished returned it.
run_from-IsSingle : (is : List ℕ) (s : System) → IsSingle s → SingleOrAbort (run is s)
unfolding run
run_from-IsSingle [] s w = inr (s, refl, w)
run_from-IsSingle (i ∷ is) s w = elim (step-IsSingle i s w) [
  | inl e ↦ inl (rw e refl)
  | inr (t, e, v) ↦ subst SingleOrAbort (sym (rw e refl)) (run_from-IsSingle is t v)
]

start-IsSingle : (n : ℕ) → IsSingle (start n)
start-IsSingle n = record {
  one = inl (refl, refl);
  placed = λ j p e. subst (IsPlaced none none j) (get_elem?-replicate n testing j p e) tt;
}

-- For threads that call Get under any schedule, either the check of the constructor failed or
-- one object at most was made, every thread that finished returned it, and a thread in the
-- locked block has the lock.
pub run-IsSingle : (is : List ℕ) (n : ℕ) → SingleOrAbort (run is (start n))
run-IsSingle is n = run_from-IsSingle is (start n) (start-IsSingle n)
