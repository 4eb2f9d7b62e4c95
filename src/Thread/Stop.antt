-- ===== src/Thread/Stop.antt =====
-- What `StopThread` does to the worker.
use septem_cpp.Common.{
  ℕ, ◌≡◌, refl, sym, subst, ◌⊎◌, inl, inr, List, [], ◌∷◌, Bool, true, false, Option, none, some,
}
use septem_cpp.Thread.{
  starting, initialised, testing, polling, ended, TaskThread, worker, stop, stop_thread, pop_task,
  poll, work_at, work, happen, run,
}

module _ {A : Type 0} where
  -- The worker is in the loop of `Run`.
  abbrev pub IsLooping : TaskThread A → Type 0
  IsLooping s = (s.place ≡ testing) ⊎ (s.place ≡ polling)

  -- The worker has not come to `bRunning = true`.
  abbrev pub IsStarting : TaskThread A → Type 0
  IsStarting s = (s.place ≡ starting) ⊎ (s.place ≡ initialised)

  -- Three steps after the call the worker has returned.
  abbrev IsEnded : TaskThread A → Type 0
  IsEnded s =
      let t = run (stop ∷ worker ∷ worker ∷ worker ∷ []) s in
      (t.place ≡ ended) × (t.thread_state ≡ 3) × (t.running ≡ false)

  polling_ends :
      (q u : List (Option A)) (r : Bool) (n : ℕ) (d : List A)
      → IsEnded (record {
        running = r;
        thread_state = n;
        task_queue = q;
        pushing = u;
        place = polling;
        delegated = d;
      })
  unfolding run happen work work_at stop_thread poll pop_task
  polling_ends [] u r n d = (refl, refl, refl)
  polling_ends (none ∷ q) u r n d = (refl, refl, refl)
  polling_ends (some a ∷ q) u r n d = (refl, refl, refl)

  testing_ends : (s : TaskThread A) → IsEnded (record s { place = testing })
  unfolding run happen work work_at stop_thread
  testing_ends s = (refl, refl, refl)

  -- When the worker is in its loop, `StopThread` ends it: three steps later it has returned, in the
  -- state 3, and nothing runs.
  pub stop-ends :
      (s : TaskThread A)
      → IsLooping s
      → let t = run (stop ∷ worker ∷ worker ∷ worker ∷ []) s in
        (t.place ≡ ended) × (t.thread_state ≡ 3) × (t.running ≡ false)
  stop-ends s (inl h) = subst (λ p. IsEnded (record s { place = p })) (sym h) (testing_ends s)
  stop-ends s (inr h) =
      subst (λ p. IsEnded (record s { place = p })) (sym h)
        (polling_ends (s.task_queue) (s.pushing) (s.running) (s.thread_state) (s.delegated))

  -- Three steps after the call the worker is in its loop.
  abbrev IsStillRunning : TaskThread A → Type 0
  IsStillRunning s =
      let t = run (stop ∷ worker ∷ worker ∷ worker ∷ []) s in IsLooping t × (t.running ≡ true)

  starting_runs : (s : TaskThread A) → IsStillRunning (record s { place = starting })
  unfolding run happen work work_at stop_thread
  starting_runs s = (inl refl, refl)

  initialised_runs : (s : TaskThread A) → IsStillRunning (record s { place = initialised })
  unfolding run happen work work_at stop_thread
  initialised_runs s = (inr refl, refl)

  -- Before the worker comes to `bRunning = true`, `StopThread` is lost: three steps later the worker
  -- is in its loop, and `bRunning` holds.
  pub stop_lost :
      (s : TaskThread A)
      → IsStarting s
      → let t = run (stop ∷ worker ∷ worker ∷ worker ∷ []) s in IsLooping t × (t.running ≡ true)
  stop_lost s (inl h) =
      subst (λ p. IsStillRunning (record s { place = p })) (sym h) (starting_runs s)
  stop_lost s (inr h) =
      subst (λ p. IsStillRunning (record s { place = p })) (sym h) (initialised_runs s)
