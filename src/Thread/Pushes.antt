-- ===== src/Thread/Pushes.antt =====
-- `PushTask` of a task thread (Core/Thread/SeptemThread.hpp): what its test lets through, and what is
-- pushed.
use septem_cpp.Common.{
  ℕ, zero, suc, ◌+◌, ◌≡◌, refl, ap, List, [], ◌∷◌, ◌++◌, if◌then◌else◌, Option, none, some, take,
  drop, Bool-cases, inl, inr, arith,
}
use septem_cpp.Thread.{
  Place, absent, starting, initialised, marking, testing, polling, leaving, ended, TaskThread,
  Event, worker, stop, clear, pop, push, enqueue, push_task, push_locked, client_pop_task,
  clear_task_queue, stop_thread, pop_task, poll, work_at, work, happen, run,
}

module _ {A : Type 0} where
  -- The pointers that an event pushes, and those that the test of `PushTask` lets through.
  abbrev pub arrived : Event A → TaskThread A → List (Option A)
  arrived (enqueue k) s = take 1 (drop k (s.pushing))
  arrived _ s = []

  abbrev passed : Event A → TaskThread A → List (Option A)
  passed (push t) s = if s.running then t ∷ [] else []
  passed _ s = []

  -- The same for a run, in order.
  unfoldable pub accepted : List (Event A) → TaskThread A → List (Option A)
  accepted [] s = []
  accepted (e ∷ es) s = arrived e s ++ accepted es (happen e s)

  unfoldable pub tested : List (Event A) → TaskThread A → List (Option A)
  tested [] s = []
  tested (e ∷ es) s = passed e s ++ tested es (happen e s)

  module _ (f : Option A → ℕ) where
    -- What pointers weigh together.
    unfoldable pub weight : List (Option A) → ℕ
    weight [] = 0
    weight (t ∷ q) = f t + weight q

    weight-append : (p q : List (Option A)) → weight (p ++ q) ≡ weight p + weight q
    unfolding weight
    weight-append [] q = omega arith
    weight-append (t ∷ p) q = omega (arith, weight-append p q)

    weight-take-drop :
        (k : ℕ) (l : List (Option A))
        → weight (take 1 (drop k l)) + weight (take k l ++ drop (k + 1) l) ≡ weight l
    unfolding weight
    weight-take-drop zero [] = omega arith
    weight-take-drop zero (t ∷ l) = omega arith
    weight-take-drop (suc k) [] = let e : suc k + 1 ≡ suc (k + 1) = omega arith in rw e refl
    weight-take-drop (suc k) (t ∷ l) =
        let e : suc k + 1 ≡ suc (k + 1) = omega arith in rw e (omega (arith, weight-take-drop k l))

    -- One event moves weight only from the tested to those under way, and from there to the pushed.
    abbrev Balance : Event A → TaskThread A → TaskThread A → Type 0
    Balance e s t =
        weight (arrived e s) + weight (t.pushing) ≡ weight (s.pushing) + weight (passed e s)

    poll_pushing :
        (q : List (Option A)) (s : TaskThread A) → s.task_queue ≡ q → (poll s).pushing ≡ s.pushing
    unfolding poll pop_task
    poll_pushing [] s e = rw e refl
    poll_pushing (none ∷ q) s e = rw e refl
    poll_pushing (some a ∷ q) s e = rw e refl

    work_pushing : (p : Place) (s : TaskThread A) → (work_at p s).pushing ≡ s.pushing
    unfolding work_at
    work_pushing polling s = poll_pushing (s.task_queue) s refl
    work_pushing absent s = refl
    work_pushing starting s = refl
    work_pushing initialised s = refl
    work_pushing marking s = refl
    work_pushing testing s = refl
    work_pushing leaving s = refl
    work_pushing ended s = refl

    happen-Balance : (e : Event A) (s : TaskThread A) → Balance e s (happen e s)
    unfolding happen work stop_thread clear_task_queue push_task push_locked client_pop_task weight
    happen-Balance worker s = omega (arith, ap weight (work_pushing (s.place) s))
    happen-Balance stop s = omega arith
    happen-Balance pop s = omega arith
    happen-Balance clear s = omega arith
    happen-Balance (push t) s = elim (Bool-cases (s.running)) [
      | inl h ↦ rw h (omega (arith, weight-append (s.pushing) (t ∷ [])))
      | inr h ↦ rw h (omega arith)
    ]
    happen-Balance (enqueue k) s = omega (arith, weight-take-drop k (s.pushing))

    pub accepted_balance :
        (es : List (Event A)) (s : TaskThread A)
        → weight (accepted es s) + weight ((run es s).pushing)
          ≡ weight (s.pushing) + weight (tested es s)
    unfolding accepted tested run weight
    accepted_balance [] s = omega arith
    accepted_balance (e ∷ es) s =
        let t = happen e s in
        omega (
          arith,
          weight-append (arrived e s) (accepted es t),
          weight-append (passed e s) (tested es t),
          happen-Balance e s,
          accepted_balance es t,
        )
