-- ===== src/StaticProtocol/Runs.antt =====
-- Whole runs of a client of `TServoProtocol`, from no object on, against its shelf.
use septem_cpp.Common.{
  ◌≡◌, refl, ◌⊎◌, inl, inr, List, [], ◌∷◌, Option, none, some, Access, fault, abort, done, ◌>>=◌,
}
use septem_cpp.Pool.Lifecycle.{Reply, nothing}
use septem_cpp.Pool.Stack.{stack_create}
use septem_cpp.StaticPacket.{BodyClass}
use septem_cpp.StaticProtocol.{
  StaticProtocol, Mode, stack_mode, queue_mode, heap_mode, static_protocol, create_pool, new_static,
  get_static, get_static_ref, static_singleton, static_singleton_ref, destroy_static,
}
use septem_cpp.StaticProtocol.Reach.{create-IsCounted}
use septem_cpp.StaticProtocol.Shelf.{
  Call, Action, through_get, through_pointer, through_singleton, shut_down, on_object, act, run,
  Shelf, new_shelf, on_shelf, act_shelf, run_shelf,
}
use septem_cpp.StaticProtocol.Shows.{Shows, perform_agrees}

module _ {B : Type 0} where
  -- A shelf for the object that `pSingleton` points at.
  ShowsPointer : Option (StaticProtocol B) → Option Shelf → Type 0
  ShowsPointer none none = Unit
  ShowsPointer none (some t) = ⊥
  ShowsPointer (some p) none = ⊥
  ShowsPointer (some p) (some t) = Shows p t

  -- Both fault, both fail a check, or both are done with the same reply.
  ActAgree : Access (Reply × Option (StaticProtocol B)) → Access (Reply × Option Shelf) → Type 0
  ActAgree m n =
      ((m ≡ fault) × (n ≡ fault))
      ⊎ (((m ≡ abort) × (n ≡ abort))
          ⊎ ((r : Reply) × (s : Option (StaticProtocol B)) × (t : Option Shelf) × (m ≡ done (r, s))
              × (n ≡ done (r, t))
              × ShowsPointer s t))

  on_object_agrees :
      (call : Call) (p : StaticProtocol B) (t : Shelf)
      → Shows p t
      → ActAgree (on_object call p) (on_shelf call t)
  unfolding ActAgree ShowsPointer
  on_object_agrees call p t w = elim (perform_agrees call p t w) [
    | inl (a, b) ↦ inl (rw (a, ◌>>=◌) refl, rw (b, ◌>>=◌) refl)
    | inr (r, q, u, a, b, v) ↦
        inr (inr (r, some q, some u, rw (a, ◌>>=◌) refl, rw (b, ◌>>=◌) refl, v))
  ]

module _ {B : Type 0} (c : BodyClass B) where
  create-Shows : (mode : Mode) → Shows (static_protocol c mode) (new_shelf mode)
  unfolding static_protocol create_pool stack_create
  create-Shows stack_mode = record { pool = refl; counted = create-IsCounted c stack_mode }
  create-Shows queue_mode = record {
    pool = ([], refl, refl);
    counted = create-IsCounted c queue_mode;
  }
  create-Shows heap_mode = record {
    pool = ([], refl, refl);
    counted = create-IsCounted c heap_mode;
  }

  act_agrees :
      (mode : Mode) (a : Action) (s : Option (StaticProtocol B)) (t : Option Shelf)
      → ShowsPointer s t
      → ActAgree (act c mode a s) (act_shelf mode a t)
  unfolding act act_shelf get_static_ref get_static new_static static_singleton static_singleton_ref
      destroy_static ShowsPointer
  act_agrees mode a none (some t) w = absurd w
  act_agrees mode a (some p) none w = absurd w
  act_agrees mode (through_get call) none none w =
      on_object_agrees call (static_protocol c mode) (new_shelf mode) (create-Shows mode)
  act_agrees mode (through_get call) (some p) (some t) w = on_object_agrees call p t w
  act_agrees mode (through_pointer call) none none w = unfold ActAgree in inl (refl, refl)
  act_agrees mode (through_pointer call) (some p) (some t) w = on_object_agrees call p t w
  act_agrees mode (through_singleton call) none none w = unfold ActAgree in inr (inl (refl, refl))
  act_agrees mode (through_singleton call) (some p) (some t) w = on_object_agrees call p t w
  act_agrees mode shut_down none none w =
      unfold ActAgree in inr (inr (nothing, none, none, refl, refl, tt))
  act_agrees mode shut_down (some p) (some t) w =
      unfold ActAgree in inr (inr (nothing, none, none, refl, refl, tt))

  runs_agree :
      (mode : Mode) (actions : List Action) (s : Option (StaticProtocol B)) (t : Option Shelf)
      → ShowsPointer s t
      → run c mode actions s ≡ run_shelf mode actions t
  unfolding run run_shelf ActAgree
  runs_agree mode [] s t w = refl
  runs_agree mode (a ∷ rest) s t w = elim (act_agrees mode a s t w) [
    | inl (h, k) ↦ rw (h, k, ◌>>=◌) refl
    | inr (inl (h, k)) ↦ rw (h, k, ◌>>=◌) refl
    | inr (inr (r, q, u, h, k, v)) ↦ rw (h, k, ◌>>=◌, runs_agree mode rest q u v) refl
  ]

  -- A client that calls Push, Pop and PacketPoolNum of TServoProtocol through GetRef, Singleton
  -- or SingletonRef and deletes the object gets, in each mode and for any list of calls from no
  -- object on, the replies of an abstract pool. In Stack mode it is a last-in-first-out stack on
  -- top of 1024 null pointers, which Pop hands out too; in the other modes it is a number of
  -- packets: Pop gives back the pointer that it was given, and faults when the number is 0.
  pub run-shelf :
      (mode : Mode) (actions : List Action) → run c mode actions none ≡ run_shelf mode actions none
  unfolding ShowsPointer
  run-shelf mode actions = runs_agree mode actions none none tt
