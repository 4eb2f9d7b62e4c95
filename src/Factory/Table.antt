-- ===== src/Factory/Table.antt =====
-- What a client of `FProtocolFactory` sees: a function from uids to delegates. Every run of the
-- client is answered as by that function.
use septem_cpp.Common.{
  ◌≡◌, refl, sym, ap, ◌⊎◌, inl, inr, List, [], ◌∷◌, Bool, true, false, if◌then◌else◌, Option, none,
  some, Access, abort, done, ◌>>=◌, Option-cases,
}
use septem_cpp.Common.Int.{ℤ, pos, eq_int}
use septem_cpp.Factory.{
  Delegate, Delegates, lookup, invoke, insert_delegate, register_protocol_deserialize,
  is_protocol_register, call_protocol_deserialize, call_protocol_deserialize_without_check,
}
use septem_cpp.Factory.Registry.{lookup-insert_delegate}
use septem_cpp.Factory.Lifecycle.{
  Pointer, Call, Reply, Action, register, is_registered, deserialize, deserialize_without_check,
  flag, result, through_get, through_singleton, shut_down, perform, on_object, act, run,
  get_factory_ref, get_factory, new_factory, factory_singleton_ref, factory_singleton,
  destroy_factory,
}

-- A delegate, which may be empty, for each uid that has one.
abbrev pub Table : Type 0 → Type 0
Table W = ℤ → Option (Option (Delegate W))

module _ {W : Type 0} where
  -- The table with a delegate at one uid.
  abbrev update : ℤ → Option (Delegate W) → Table W → Table W
  update uid f t k = if eq_int k uid then some f else t k

  abbrev is_some : Option (Option (Delegate W)) → Bool
  is_some none = false
  is_some (some f) = true

  unfoldable pub perform_table : Call W → Table W → Reply W × Table W
  perform_table (register uid f) t = elim (t uid) [
    | none ↦ (flag true, update uid f t)
    | some g ↦ (flag false, t)
  ]
  perform_table (is_registered uid) t = (flag (is_some (t uid)), t)
  perform_table (deserialize head buffer size read w) t = elim (t (pos (head.uid))) [
    | none ↦ (result (done (read, w)), t)
    | some f ↦ (result (invoke f head buffer size read w), t)
  ]
  perform_table (deserialize_without_check head buffer size read w) t = elim (t (pos (head.uid))) [
    | none ↦ (result abort, update (pos (head.uid)) none t)
    | some f ↦ (result (invoke f head buffer size read w), t)
  ]

  abbrev on_table : Call W → Table W → Access (Reply W × Option (Table W))
  on_table c t = let (r, u) = perform_table c t in done (r, some u)

  unfoldable pub act_table : Action W → Option (Table W) → Access (Reply W × Option (Table W))
  unfolding perform_table
  act_table (through_get c) none = on_table c (λ k. none)
  act_table (through_get c) (some t) = on_table c t
  act_table (through_singleton c) none = abort
  act_table (through_singleton c) (some t) = on_table c t
  act_table shut_down none = abort
  act_table shut_down (some t) = done (flag true, none)

  unfoldable pub run_table : List (Action W) → Option (Table W) → Access (List (Reply W))
  unfolding act_table
  run_table [] t = done []
  run_table (a ∷ rest) t = do r ← act_table a t; rs ← run_table rest (r.1); done (r.0 ∷ rs)

  abbrev table_of : Delegates W → Table W
  table_of m k = lookup k m

  inserted :
      (uid : ℤ) (f : Option (Delegate W)) (m : Delegates W)
      → lookup uid m ≡ none
      → table_of (insert_delegate uid f m) ≡ update uid f (table_of m)
  inserted uid f m h = λ j k. lookup-insert_delegate uid k f m h j

  perform_agrees :
      (c : Call W) (m : Delegates W)
      → perform_table c (table_of m) ≡ ((perform c m).0, table_of ((perform c m).1))
  unfolding perform perform_table register_protocol_deserialize is_protocol_register
      call_protocol_deserialize call_protocol_deserialize_without_check
  perform_agrees (register uid f) m = elim (Option-cases (lookup uid m)) [
    | inl h ↦
        rw (perform_table, perform, register_protocol_deserialize, h)
          (ap (λ t. (flag true, t)) (sym (inserted uid f m h)))
    | inr (g, h) ↦ rw (perform_table, perform, register_protocol_deserialize, h) refl
  ]
  perform_agrees (is_registered uid) m = elim (Option-cases (lookup uid m)) [
    | inl h ↦ rw (perform_table, perform, is_protocol_register, h) refl
    | inr (g, h) ↦ rw (perform_table, perform, is_protocol_register, h) refl
  ]
  perform_agrees (deserialize head buffer size read w) m =
      elim (Option-cases (lookup (pos (head.uid)) m)) [
        | inl h ↦ rw (perform_table, perform, call_protocol_deserialize, h) refl
        | inr (g, h) ↦ rw (perform_table, perform, call_protocol_deserialize, h) refl
      ]
  perform_agrees (deserialize_without_check head buffer size read w) m =
      elim (Option-cases (lookup (pos (head.uid)) m)) [
        | inl h ↦
            rw (perform_table, perform, call_protocol_deserialize_without_check, h)
              (ap (λ t. (result abort, t)) (sym (inserted (pos (head.uid)) none m h)))
        | inr (g, h) ↦ rw (perform_table, perform, call_protocol_deserialize_without_check, h) refl
      ]

  -- What the client sees of `pSingleton`.
  table_of_pointer : Pointer W → Option (Table W)
  table_of_pointer none = none
  table_of_pointer (some m) = some (table_of m)

  -- Both fail a check, or both are done with the same reply and tables that agree.
  ActAgree : Access (Reply W × Pointer W) → Access (Reply W × Option (Table W)) → Type 0
  ActAgree m n =
      ((m ≡ abort) × (n ≡ abort))
      ⊎ ((r : Reply W) × (s : Pointer W) × (m ≡ done (r, s)) × (n ≡ done (r, table_of_pointer s)))

  on_object_agrees :
      (c : Call W) (m : Delegates W) → ActAgree (on_object c m) (on_table c (table_of m))
  unfolding ActAgree table_of_pointer
  on_object_agrees c m = inr (
    (perform c m).0,
    some ((perform c m).1),
    refl,
    ap (λ r. done (r.0, some (r.1))) (perform_agrees c m),
  )

  act_agrees :
      (a : Action W) (s : Pointer W) → ActAgree (act a s) (act_table a (table_of_pointer s))
  unfolding act act_table get_factory_ref get_factory new_factory factory_singleton_ref
      factory_singleton destroy_factory table_of_pointer lookup
  act_agrees (through_get c) none = on_object_agrees c []
  act_agrees (through_get c) (some m) = on_object_agrees c m
  act_agrees (through_singleton c) none = unfold ActAgree in inl (refl, refl)
  act_agrees (through_singleton c) (some m) = on_object_agrees c m
  act_agrees shut_down none = unfold ActAgree in inl (refl, refl)
  act_agrees shut_down (some m) = unfold ActAgree in inr (flag true, none, refl, refl)

  runs_agree :
      (actions : List (Action W)) (s : Pointer W)
      → run actions s ≡ run_table actions (table_of_pointer s)
  unfolding run run_table ActAgree
  runs_agree [] s = refl
  runs_agree (a ∷ rest) s = elim (act_agrees a s) [
    | inl (h, k) ↦ rw (h, k, ◌>>=◌) refl
    | inr (r, t, h, k) ↦ rw (h, k, ◌>>=◌, runs_agree rest t) refl
  ]

  -- A client that calls members of FProtocolFactory through GetRef or SingletonRef and deletes
  -- the object gets, for any list of calls from no object on, the replies of a function from
  -- uids to delegates: a uid stands for what was registered first, and a call without check of a
  -- uid that is not registered throws and leaves an empty delegate for it.
  pub run-table : (actions : List (Action W)) → run actions none ≡ run_table actions none
  unfolding table_of_pointer
  run-table actions = runs_agree actions none
