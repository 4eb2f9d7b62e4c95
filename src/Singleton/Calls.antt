-- ===== src/Singleton/Calls.antt =====
-- A call of `Get` that no other thread disturbs, and two calls that meet.
use septem_cpp.Common.{
  ℕ, zero, suc, ap, ◌+◌, ◌≡◌, ◌≢◌, refl, sym, ◌∙◌, ◌⊎◌, inl, inr, List, [], ◌∷◌, none, some,
  Option-cases, set, get_elem?, get_elem?-set_self, get_elem?-set_ne, get_elem?-eq-some_lt, Access,
  abort, done, ◌>>=◌,
}
use septem_cpp.Singleton.{
  Place, testing, locking, creating, unlocking, returning, finished, System, go_to, new_singleton,
  turn, step, run, singleton_ref, checked_singleton, destroy,
}

-- The turn of a thread whose place is known.
run-turn :
    (i : ℕ) (is : List ℕ) (p : Place) (s : System) (m : Access System)
    → get_elem? (s.places) i ≡ some p
    → turn p i s ≡ m
    → run (i ∷ is) s ≡ (m >>= λ t. run is t)
unfolding run step
run-turn i is p s m e h = rw (step, e, h) refl

-- A thread that has moved stands where it moved.
moved :
    (i : ℕ) (p q : Place) (places : List Place)
    → get_elem? places i ≡ some p
    → get_elem? (set places i q) i ≡ some q
moved i p q places e = get_elem?-set_self places i q (get_elem?-eq-some_lt places i e)

set-set : (places : List Place) (i : ℕ) (p q : Place) → set (set places i p) i q ≡ set places i q
set-set [] i p q = refl
set-set (x ∷ xs) zero p q = refl
set-set (x ∷ xs) (suc i) p q = ap (λ l. x ∷ l) (set-set xs i p q)

-- What five turns of thread `i` leave, where nobody else has the lock.
pub record AloneOutcome (i : ℕ) (s : System) : Type 0 where
  pub t : System
  pub ran : run (i ∷ i ∷ i ∷ i ∷ i ∷ []) s ≡ done t
  pub returned : get_elem? (t.places) i ≡ some (finished (t.singleton))
  pub lock_free : t.lock ≡ none
  pub only_place : t.places ≡ set (s.places) i (finished (t.singleton))
  pub object :
      ((s.singleton ≡ none) × (t.singleton ≡ some (s.made)) × (t.made ≡ s.made + 1))
      ⊎ ((s.singleton ≢ none) × (t.singleton ≡ s.singleton) × (t.made ≡ s.made))

-- A call of Get that nobody disturbs ends with the lock free and returns the pointer: the object
-- that is there, or else one new object.
pub get_alone :
    (i : ℕ) (s : System) → get_elem? (s.places) i ≡ some testing → s.lock ≡ none → AloneOutcome i s
unfolding turn new_singleton run
get_alone i s e l = elim (Option-cases (s.singleton)) [
  | inl h ↦
      let s1 : System = go_to i locking s in
      let s2 : System = go_to i creating (record s1 { lock = some i }) in
      let s3 : System =
        go_to i unlocking (record s2 { singleton = some (s.made); made = s.made + 1 }) in
      let s4 : System = go_to i returning (record s3 { lock = none }) in
      let s5 : System = go_to i (finished (some (s.made))) s4 in
      let e1 = moved i testing locking (s.places) e in
      let e2 = moved i locking creating (s1.places) e1 in
      let e3 = moved i creating unlocking (s2.places) e2 in
      let e4 = moved i unlocking returning (s3.places) e3 in
      record {
        t = s5;
        ran =
            run-turn i (i ∷ i ∷ i ∷ i ∷ []) testing s (done s1) e (rw h refl)
            ∙ run-turn i (i ∷ i ∷ i ∷ []) locking s1 (done s2) e1 (rw l refl)
            ∙ run-turn i (i ∷ i ∷ []) creating s2 (done s3) e2 (rw h refl)
            ∙ run-turn i (i ∷ []) unlocking s3 (done s4) e3 refl
            ∙ run-turn i [] returning s4 (done s5) e4 refl;
        returned = moved i returning (finished (some (s.made))) (s4.places) e4;
        lock_free = refl;
        only_place =
            set-set (s3.places) i returning (finished (some (s.made)))
            ∙ set-set (s2.places) i unlocking (finished (some (s.made)))
            ∙ set-set (s1.places) i creating (finished (some (s.made)))
            ∙ set-set (s.places) i locking (finished (some (s.made)));
        object = inl (h, refl, refl);
      }
  | inr (o, h) ↦
      let s1 : System = go_to i returning s in
      let s2 : System = go_to i (finished (s.singleton)) s1 in
      let e1 = moved i testing returning (s.places) e in
      let e2 = moved i returning (finished (s.singleton)) (s1.places) e1 in
      record {
        t = s2;
        ran =
            run-turn i (i ∷ i ∷ i ∷ i ∷ []) testing s (done s1) e (rw h refl)
            ∙ run-turn i (i ∷ i ∷ i ∷ []) returning s1 (done s2) e1 refl
            ∙ run-turn i (i ∷ i ∷ []) (finished (s.singleton)) s2 (done s2) e2 refl
            ∙ run-turn i (i ∷ []) (finished (s.singleton)) s2 (done s2) e2 refl
            ∙ run-turn i [] (finished (s.singleton)) s2 (done s2) e2 refl;
        returned = e2;
        lock_free = l;
        only_place = set-set (s.places) i returning (finished (s.singleton));
        object = inr ((λ n. cc), refl, refl);
      }
]

-- The other thread stays where it was.
stays :
    (i j : ℕ) (q p : Place) (places : List Place)
    → i ≢ j
    → get_elem? places j ≡ some p
    → get_elem? (set places i q) j ≡ some p
stays i j q p places n e = get_elem?-set_ne places i j q n ∙ e

-- Two threads that both test the pointer before either makes the object fail the check of the
-- constructor.
pub get_race :
    (i j : ℕ) (s : System)
    → i ≢ j
    → get_elem? (s.places) i ≡ some testing
    → get_elem? (s.places) j ≡ some testing
    → s.singleton ≡ none
    → s.lock ≡ none
    → run (i ∷ j ∷ i ∷ i ∷ i ∷ j ∷ j ∷ []) s ≡ abort
unfolding turn new_singleton
get_race i j s n ei ej g l =
    let n' : j ≢ i = λ h. n (sym h) in
    let s1 : System = go_to i locking s in
    let s2 : System = go_to j locking s1 in
    let s3 : System = go_to i creating (record s2 { lock = some i }) in
    let s4 : System =
      go_to i unlocking (record s3 { singleton = some (s.made); made = s.made + 1 }) in
    let s5 : System = go_to i returning (record s4 { lock = none }) in
    let s6 : System = go_to j creating (record s5 { lock = some j }) in
    let i1 = moved i testing locking (s.places) ei in
    let j1 = stays i j locking testing (s.places) n ej in
    let i2 = stays j i locking locking (s1.places) n' i1 in
    let j2 = moved j testing locking (s1.places) j1 in
    let i3 = moved i locking creating (s2.places) i2 in
    let j3 = stays i j creating locking (s2.places) n j2 in
    let i4 = moved i creating unlocking (s3.places) i3 in
    let j4 = stays i j unlocking locking (s3.places) n j3 in
    let j5 = stays i j returning locking (s4.places) n j4 in
    let j6 = moved j locking creating (s5.places) j5 in
    run-turn i (j ∷ i ∷ i ∷ i ∷ j ∷ j ∷ []) testing s (done s1) ei (rw g refl)
    ∙ run-turn j (i ∷ i ∷ i ∷ j ∷ j ∷ []) testing s1 (done s2) j1 (rw g refl)
    ∙ run-turn i (i ∷ i ∷ j ∷ j ∷ []) locking s2 (done s3) i2 (rw l refl)
    ∙ run-turn i (i ∷ j ∷ j ∷ []) creating s3 (done s4) i3 (rw g refl)
    ∙ run-turn i (j ∷ j ∷ []) unlocking s4 (done s5) i4 refl
    ∙ run-turn j (j ∷ []) locking s5 (done s6) j5 refl
    ∙ run-turn j [] creating s6 abort j6 refl

-- After a call of `Get` the pointer is that of an object, which its thread returned.
got :
    (i : ℕ) (s : System) (a : AloneOutcome i s)
    → (o : ℕ) × (singleton_ref (a.t) ≡ done o)
      × (checked_singleton (a.t) ≡ done (some o))
      × (get_elem? (a.t.places) i ≡ some (finished (some o)))
unfolding singleton_ref checked_singleton
got i s a = elim (Option-cases (a.t.singleton)) [
  | inl e ↦ elim (a.object) [
    | inl (p, q, r) ↦ let x = sym e ∙ q in absurd cc
    | inr (p, q, r) ↦ absurd (p (sym q ∙ e))
  ]
  | inr (o, e) ↦ (o, rw e refl, rw e refl, a.returned ∙ ap (λ z. some (finished z)) e)
]

-- For two different threads that are about to test the pointer, with the lock free: when the
-- first calls Get undisturbed, it returns an object, which SingletonRef and the checked
-- Singleton give. After the destructor both fail their check, and when the second thread then
-- calls Get it makes a new object, whose number is the count of those made before.
pub get-destroy :
    (i j : ℕ) (s : System)
    → i ≢ j
    → get_elem? (s.places) i ≡ some testing
    → get_elem? (s.places) j ≡ some testing
    → s.lock ≡ none
    → (t : System) × (u : System) × (o : ℕ) × (run (i ∷ i ∷ i ∷ i ∷ i ∷ []) s ≡ done t)
      × (get_elem? (t.places) i ≡ some (finished (some o)))
      × (singleton_ref t ≡ done o)
      × (checked_singleton t ≡ done (some o))
      × (singleton_ref (destroy t) ≡ abort)
      × (checked_singleton (destroy t) ≡ abort)
      × (run (j ∷ j ∷ j ∷ j ∷ j ∷ []) (destroy t) ≡ done u)
      × (singleton_ref u ≡ done (t.made))
      × (u.made ≡ t.made + 1)
unfolding singleton_ref checked_singleton destroy
get-destroy i j s n ei ej l =
    let a = get_alone i s ei l in
    let (o, r, c, f) = got i s a in
    let t = a.t in
    let ej' : get_elem? (t.places) j ≡ some testing =
      ap (λ p. get_elem? p j) (a.only_place)
      ∙ stays i j (finished (t.singleton)) testing (s.places) n ej in
    let b = get_alone j (destroy t) ej' (a.lock_free) in
    let u = b.t in
    let (made, count) : (u.singleton ≡ some (t.made)) × (u.made ≡ t.made + 1) = elim (b.object) [
      | inl (p, q, m) ↦ (q, m)
      | inr (p, q, m) ↦ absurd (p refl)
    ] in
    (t, u, o, a.ran, f, r, c, refl, refl, b.ran, rw made refl, count)
