-- ===== src/Tests/Singleton.antt =====
-- Threads that call `Get` together.
use septem_cpp.Common.{
  ℕ, ◌+◌, get_elem?, ◌≡◌, refl, ◌⊎◌, inl, [], ◌∷◌, none, some, abort, done, arith,
}
use septem_cpp.Singleton.{
  System, start, run, locking, finished, step, turn, new_singleton, singleton_ref,
  checked_singleton, destroy,
}
use septem_cpp.Singleton.Race.{SingleOrAbort, run-IsSingle}
use septem_cpp.Singleton.Collision.{IsOneBehind, run-IsOneBehind}
use septem_cpp.Singleton.Calls.{AloneOutcome, get_alone, get_race, get-destroy}

run-IsSingle_example : SingleOrAbort (run (0 ∷ 0 ∷ 0 ∷ 1 ∷ 0 ∷ 1 ∷ 0 ∷ []) (start 2))
run-IsSingle_example = run-IsSingle (0 ∷ 0 ∷ 0 ∷ 1 ∷ 0 ∷ 1 ∷ 0 ∷ []) 2

get_alone_example : AloneOutcome 1 (start 2)
get_alone_example = get_alone 1 (start 2) refl refl

-- Two threads that have both found a null pointer.
abbrev both_behind : System
both_behind = record (start 2) { places = locking ∷ locking ∷ [] }

run-IsOneBehind_example :
    (run (0 ∷ 0 ∷ 0 ∷ 1 ∷ 1 ∷ []) both_behind ≡ abort)
    ⊎ ((t : System) × (run (0 ∷ 0 ∷ 0 ∷ 1 ∷ 1 ∷ []) both_behind ≡ done t) × IsOneBehind 0 1 t)
run-IsOneBehind_example =
    run-IsOneBehind 0 1 (0 ∷ 0 ∷ 0 ∷ 1 ∷ 1 ∷ []) both_behind (omega arith) (inl refl) (inl refl)

-- One schedule on which the check fails.
get_race_run : run (0 ∷ 1 ∷ 0 ∷ 0 ∷ 0 ∷ 1 ∷ 1 ∷ []) (start 2) ≡ abort
get_race_run = get_race 0 1 (start 2) (omega arith) refl refl refl refl

get-destroy_example :
    (t : System) × (u : System) × (o : ℕ) × (run (0 ∷ 0 ∷ 0 ∷ 0 ∷ 0 ∷ []) (start 2) ≡ done t)
    × (get_elem? (t.places) 0 ≡ some (finished (some o)))
    × (singleton_ref t ≡ done o)
    × (checked_singleton t ≡ done (some o))
    × (singleton_ref (destroy t) ≡ abort)
    × (checked_singleton (destroy t) ≡ abort)
    × (run (1 ∷ 1 ∷ 1 ∷ 1 ∷ 1 ∷ []) (destroy t) ≡ done u)
    × (singleton_ref u ≡ done (t.made))
    × (u.made ≡ t.made + 1)
get-destroy_example = get-destroy 0 1 (start 2) (omega arith) refl refl refl

-- A schedule on which both threads get the one object.
both_get_it :
    run (0 ∷ 0 ∷ 0 ∷ 1 ∷ 0 ∷ 1 ∷ 0 ∷ []) (start 2)
    ≡ done (record {
      singleton = some 0;
      made = 1;
      lock = none;
      places = finished (some 0) ∷ finished (some 0) ∷ [];
    })
unfolding run step turn new_singleton
both_get_it = refl
