-- ===== src/Thread/Order.antt =====
-- Pointers leave the queue of a task thread in the order in which they came in.
use septem_cpp.Common.{
  ℕ, ◌≡◌, refl, sym, ap, ◌∙◌, List, [], ◌∷◌, ◌++◌, append_assoc, append-nil, Bool, Option, none,
  some, ◌+◌, Bool-cases, inl, inr,
}
use septem_cpp.Thread.{
  Place, absent, starting, initialised, marking, testing, polling, leaving, ended, TaskThread,
  Event, worker, stop, clear, pop, push, enqueue, push_task, push_locked, client_pop_task,
  clear_task_queue, stop_thread, pop_task, poll, work_at, work, happen, run,
}
use septem_cpp.Thread.Pushes.{arrived, accepted, tested, weight, accepted_balance}

-- Who took a pointer out of the queue: the worker, `PopTask` of a client, or `ClearTaskQueue`.
pub data Departure (A : Type 0) : Type 0 where
  by_worker by_client by_clear : Option A → Departure A

module _ {A : Type 0} where
  -- The pointers that are not null.
  unfoldable pub tasks_of : List (Option A) → List A
  tasks_of [] = []
  tasks_of (none ∷ q) = tasks_of q
  tasks_of (some a ∷ q) = a ∷ tasks_of q

  -- The pointers that left, and those that the worker took.
  unfoldable pub pointers_of : List (Departure A) → List (Option A)
  pointers_of [] = []
  pointers_of (by_worker t ∷ ds) = t ∷ pointers_of ds
  pointers_of (by_client t ∷ ds) = t ∷ pointers_of ds
  pointers_of (by_clear t ∷ ds) = t ∷ pointers_of ds

  unfoldable pub worked_of : List (Departure A) → List (Option A)
  worked_of [] = []
  worked_of (by_worker t ∷ ds) = t ∷ worked_of ds
  worked_of (by_client t ∷ ds) = worked_of ds
  worked_of (by_clear t ∷ ds) = worked_of ds

  -- The front of a queue, and the whole of it, as departures.
  abbrev front_to_worker : List (Option A) → List (Departure A)
  front_to_worker [] = []
  front_to_worker (t ∷ q) = by_worker t ∷ []

  abbrev front_to_client : List (Option A) → List (Departure A)
  front_to_client [] = []
  front_to_client (t ∷ q) = by_client t ∷ []

  abbrev all_cleared : List (Option A) → List (Departure A)
  all_cleared [] = []
  all_cleared (t ∷ q) = by_clear t ∷ all_cleared q

  abbrev polled : Place → List (Option A) → List (Departure A)
  polled polling q = front_to_worker q
  polled _ q = []

  -- What leaves the queue at an event.
  abbrev departed : Event A → TaskThread A → List (Departure A)
  departed worker s = polled (s.place) (s.task_queue)
  departed pop s = front_to_client (s.task_queue)
  departed clear s = all_cleared (s.task_queue)
  departed _ s = []

  -- The same for a run, in order.
  unfoldable pub departures : List (Event A) → TaskThread A → List (Departure A)
  departures [] s = []
  departures (e ∷ es) s = departed e s ++ departures es (happen e s)

  tasks_of-append : (p q : List (Option A)) → tasks_of (p ++ q) ≡ tasks_of p ++ tasks_of q
  unfolding tasks_of
  tasks_of-append [] q = refl
  tasks_of-append (none ∷ p) q = tasks_of-append p q
  tasks_of-append (some a ∷ p) q = ap (◌∷◌ a) (tasks_of-append p q)

  pointers_of-append :
      (p q : List (Departure A)) → pointers_of (p ++ q) ≡ pointers_of p ++ pointers_of q
  unfolding pointers_of
  pointers_of-append [] q = refl
  pointers_of-append (by_worker t ∷ p) q = ap (◌∷◌ t) (pointers_of-append p q)
  pointers_of-append (by_client t ∷ p) q = ap (◌∷◌ t) (pointers_of-append p q)
  pointers_of-append (by_clear t ∷ p) q = ap (◌∷◌ t) (pointers_of-append p q)

  worked_of-append : (p q : List (Departure A)) → worked_of (p ++ q) ≡ worked_of p ++ worked_of q
  unfolding worked_of
  worked_of-append [] q = refl
  worked_of-append (by_worker t ∷ p) q = ap (◌∷◌ t) (worked_of-append p q)
  worked_of-append (by_client t ∷ p) q = worked_of-append p q
  worked_of-append (by_clear t ∷ p) q = worked_of-append p q

  -- One event keeps the order, and the worker passes on what it takes unless it is null.
  abbrev Keeps : List (Departure A) → List (Option A) → TaskThread A → TaskThread A → Type 0
  Keeps ds arriving s t =
      (pointers_of ds ++ t.task_queue ≡ s.task_queue ++ arriving)
      × (t.delegated ≡ s.delegated ++ tasks_of (worked_of ds))

  unchanged :
      (s t : TaskThread A)
      → t.task_queue ≡ s.task_queue
      → t.delegated ≡ s.delegated
      → Keeps [] [] s t
  unfolding pointers_of worked_of tasks_of
  unchanged s t q d = (q ∙ sym (append-nil (s.task_queue)), d ∙ sym (append-nil (s.delegated)))

  module _ (running : Bool) (thread_state : ℕ) (pushing : List (Option A)) (place : Place)
      (delegated : List A) where
    abbrev with_queue : List (Option A) → TaskThread A
    with_queue q = record {
      running = running;
      thread_state = thread_state;
      task_queue = q;
      pushing = pushing;
      place = place;
      delegated = delegated;
    }

    poll-Keeps :
        (q : List (Option A)) → Keeps (front_to_worker q) [] (with_queue q) (poll (with_queue q))
    unfolding poll pop_task tasks_of worked_of pointers_of
    poll-Keeps [] = (refl, sym (append-nil delegated))
    poll-Keeps (none ∷ q) = (ap (◌∷◌ none) (sym (append-nil q)), sym (append-nil delegated))
    poll-Keeps (some a ∷ q) = (ap (◌∷◌ (some a)) (sym (append-nil q)), refl)

    pop-Keeps :
        (q : List (Option A))
        → Keeps (front_to_client q) [] (with_queue q) (client_pop_task (with_queue q))
    unfolding client_pop_task pop_task tasks_of worked_of pointers_of
    pop-Keeps [] = (refl, sym (append-nil delegated))
    pop-Keeps (t ∷ q) = (ap (◌∷◌ t) (sym (append-nil q)), sym (append-nil delegated))

  all_cleared-lem :
      (q : List (Option A)) → (pointers_of (all_cleared q) ≡ q) × (worked_of (all_cleared q) ≡ [])
  unfolding pointers_of worked_of
  all_cleared-lem [] = (refl, refl)
  all_cleared-lem (t ∷ q) = let (a, b) = all_cleared-lem q in (ap (◌∷◌ t) a, b)

  work-Keeps : (p : Place) (s : TaskThread A) → Keeps (polled p (s.task_queue)) [] s (work_at p s)
  unfolding work_at
  work-Keeps polling s =
      poll-Keeps (s.running) (s.thread_state) (s.pushing) (s.place) (s.delegated) (s.task_queue)
  work-Keeps absent s = unchanged s (work_at absent s) refl refl
  work-Keeps starting s = unchanged s (work_at starting s) refl refl
  work-Keeps initialised s = unchanged s (work_at initialised s) refl refl
  work-Keeps marking s = unchanged s (work_at marking s) refl refl
  work-Keeps testing s = unchanged s (work_at testing s) refl refl
  work-Keeps leaving s = unchanged s (work_at leaving s) refl refl
  work-Keeps ended s = unchanged s (work_at ended s) refl refl

  happen-Keeps :
      (e : Event A) (s : TaskThread A) → Keeps (departed e s) (arrived e s) s (happen e s)
  unfolding happen work stop_thread clear_task_queue push_task push_locked worked_of pointers_of
      tasks_of
  happen-Keeps worker s = work-Keeps (s.place) s
  happen-Keeps stop s = unchanged s (stop_thread s) refl refl
  happen-Keeps pop s =
      pop-Keeps (s.running) (s.thread_state) (s.pushing) (s.place) (s.delegated) (s.task_queue)
  happen-Keeps clear s =
      let (a, b) = all_cleared-lem (s.task_queue) in
      (
        ap (λ l. l ++ []) a,
        sym (append-nil (s.delegated)) ∙ ap (λ l. s.delegated ++ tasks_of l) (sym b),
      )
  happen-Keeps (push t) s = elim (Bool-cases (s.running)) [
    | inl h ↦ rw h (unchanged s (record s { pushing = s.pushing ++ t ∷ [] }) refl refl)
    | inr h ↦ rw h (unchanged s s refl refl)
  ]
  happen-Keeps (enqueue k) s = (refl, sym (append-nil (s.delegated)))

  chained :
      (d ds : List (Departure A)) (a later : List (Option A)) (s t u : TaskThread A)
      → Keeps d a s t
      → Keeps ds later t u
      → Keeps (d ++ ds) (a ++ later) s u
  chained d ds a later s t u (p, q) (v, w) = (
    ap (λ l. l ++ u.task_queue) (pointers_of-append d ds)
        ∙ append_assoc (pointers_of d) (pointers_of ds) (u.task_queue)
        ∙ ap (λ l. pointers_of d ++ l) v
        ∙ sym (append_assoc (pointers_of d) (t.task_queue) later)
        ∙ ap (λ l. l ++ later) p
        ∙ append_assoc (s.task_queue) a later,
    w
        ∙ ap (λ l. l ++ tasks_of (worked_of ds)) q
        ∙ append_assoc (s.delegated) (tasks_of (worked_of d)) (tasks_of (worked_of ds))
        ∙ ap (λ l. s.delegated ++ l)
            (sym (tasks_of-append (worked_of d) (worked_of ds))
              ∙ ap tasks_of (sym (worked_of-append d ds))),
  )

  ordered :
      (es : List (Event A)) (s : TaskThread A)
      → Keeps (departures es s) (accepted es s) s (run es s)
  unfolding run departures accepted
  ordered [] s = unchanged s s refl refl
  ordered (e ∷ es) s =
      chained (departed e s) (departures es (happen e s)) (arrived e s) (accepted es (happen e s)) s
        (happen e s) (run es (happen e s)) (happen-Keeps e s) (ordered es (happen e s))

  -- In every run of the worker and of clients that call PushTask, PopTask, ClearTaskQueue and
  -- StopThread, from any state: the pointers that left the queue (taken by the worker, taken by
  -- PopTask of a client, or dropped by ClearTaskQueue), in the order in which they left and
  -- followed by those in the queue, are those that were in the queue before, followed by those
  -- that PushTask pushed, in the order of the pushes; whatever number each pointer counts for,
  -- those pushed and those of clients that are still behind the test of PushTask count together
  -- for as much as those of clients behind the test before and those of the PushTask calls that
  -- found bRunning true; and the worker passes on, in order, exactly those of the pointers it
  -- took that are not null.
  pub run-order :
      (f : Option A → ℕ) (es : List (Event A)) (s : TaskThread A)
      → (pointers_of (departures es s) ++ (run es s).task_queue ≡ s.task_queue ++ accepted es s)
        × (weight f (accepted es s) + weight f ((run es s).pushing)
            ≡ weight f (s.pushing) + weight f (tested es s))
        × ((run es s).delegated ≡ s.delegated ++ tasks_of (worked_of (departures es s)))
  run-order f es s = let (a, b) = ordered es s in (a, accepted_balance f es s, b)
