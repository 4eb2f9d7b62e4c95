-- ===== src/Thread/Join.antt =====
-- `DelayStopThread` waits for the worker, while other threads go on with their calls.
use septem_cpp.Common.{
  ℕ, suc, ◌≤◌, ◌≡◌, refl, sym, subst, inl, inr, List, [], ◌∷◌, false, Option, none, some, take,
  drop, ◌+◌, ◌++◌, arith,
}
use septem_cpp.Thread.{
  Place, testing, polling, leaving, ended, TaskThread, Event, worker, stop, clear, pop, push,
  enqueue, stop_thread, push_task, push_locked, client_pop_task, clear_task_queue, pop_task, poll,
  work_at, work, happen, wait, join_thread, delay_stop_thread,
}
use septem_cpp.Thread.Stop.{IsLooping}

-- The number of steps of the worker.
abbrev pub turns : {A : Type 0} → List (Event A) → ℕ
turns [] = 0
turns (worker ∷ es) = suc (turns es)
turns (_ ∷ es) = turns es

module _ {A : Type 0} where
  -- A state in which nothing runs.
  abbrev stopped : List (Option A) → List (Option A) → ℕ → List A → Place → TaskThread A
  stopped q u n d p = record {
    running = false;
    thread_state = n;
    task_queue = q;
    pushing = u;
    place = p;
    delegated = d;
  }

  abbrev Returns : Option (TaskThread A) → Type 0
  Returns o =
      (t : TaskThread A) × (o ≡ some t)
      × (t.place ≡ ended)
      × (t.thread_state ≡ 3)
      × (t.running ≡ false)

  wait_ended :
      (es : List (Event A)) (q u : List (Option A)) (d : List A)
      → Returns (wait es (stopped q u 3 d ended))
  unfolding wait
  wait_ended [] q u d = (_, refl, refl, refl, refl)
  wait_ended (e ∷ es) q u d = (_, refl, refl, refl, refl)

  wait_leaving :
      (es : List (Event A)) (q u : List (Option A)) (n : ℕ) (d : List A)
      → 1 ≤ turns es
      → Returns (wait es (stopped q u n d leaving))
  unfolding wait happen work work_at stop_thread push_task push_locked client_pop_task
      clear_task_queue
  wait_leaving [] q u n d h = absurd (omega arith)
  wait_leaving (worker ∷ es) q u n d h = wait_ended es q u d
  wait_leaving (stop ∷ es) q u n d h = wait_leaving es q u n d h
  wait_leaving (clear ∷ es) q u n d h = wait_leaving es [] u n d h
  wait_leaving (pop ∷ es) q u n d h = wait_leaving es ((pop_task none q).2) u n d h
  wait_leaving (push t ∷ es) q u n d h = wait_leaving es q u n d h
  wait_leaving (enqueue k ∷ es) q u n d h =
      wait_leaving es (q ++ take 1 (drop k u)) (take k u ++ drop (k + 1) u) n d h

  wait_testing :
      (es : List (Event A)) (q u : List (Option A)) (n : ℕ) (d : List A)
      → 2 ≤ turns es
      → Returns (wait es (stopped q u n d testing))
  unfolding wait happen work work_at stop_thread push_task push_locked client_pop_task
      clear_task_queue
  wait_testing [] q u n d h = absurd (omega arith)
  wait_testing (worker ∷ es) q u n d h = wait_leaving es q u n d (omega arith)
  wait_testing (stop ∷ es) q u n d h = wait_testing es q u n d h
  wait_testing (clear ∷ es) q u n d h = wait_testing es [] u n d h
  wait_testing (pop ∷ es) q u n d h = wait_testing es ((pop_task none q).2) u n d h
  wait_testing (push t ∷ es) q u n d h = wait_testing es q u n d h
  wait_testing (enqueue k ∷ es) q u n d h =
      wait_testing es (q ++ take 1 (drop k u)) (take k u ++ drop (k + 1) u) n d h

  wait_polling :
      (es : List (Event A)) (q u : List (Option A)) (n : ℕ) (d : List A)
      → 3 ≤ turns es
      → Returns (wait es (stopped q u n d polling))
  unfolding wait happen work work_at poll pop_task stop_thread push_task push_locked client_pop_task
      clear_task_queue
  wait_polling [] q u n d h = absurd (omega arith)
  wait_polling (worker ∷ es) [] u n d h = wait_testing es [] u n d (omega arith)
  wait_polling (worker ∷ es) (none ∷ q) u n d h = wait_testing es q u n d (omega arith)
  wait_polling (worker ∷ es) (some a ∷ q) u n d h = wait_testing es q u n _ (omega arith)
  wait_polling (stop ∷ es) q u n d h = wait_polling es q u n d h
  wait_polling (clear ∷ es) q u n d h = wait_polling es [] u n d h
  wait_polling (pop ∷ es) q u n d h = wait_polling es ((pop_task none q).2) u n d h
  wait_polling (push t ∷ es) q u n d h = wait_polling es q u n d h
  wait_polling (enqueue k ∷ es) q u n d h =
      wait_polling es (q ++ take 1 (drop k u)) (take k u ++ drop (k + 1) u) n d h

  -- When the worker is in its loop, DelayStopThread returns behind any events of the worker and
  -- other clients with at least three steps of the worker among them: the worker has ended in
  -- the state 3, and nothing runs.
  pub delay_stop_thread-returns :
      (es : List (Event A)) (s : TaskThread A)
      → IsLooping s
      → 3 ≤ turns es
      → (t : TaskThread A) × (delay_stop_thread es s ≡ some t)
        × (t.place ≡ ended)
        × (t.thread_state ≡ 3)
        × (t.running ≡ false)
  unfolding delay_stop_thread join_thread stop_thread
  delay_stop_thread-returns es s (inl h) enough =
      subst (λ p. Returns (delay_stop_thread es (record s { place = p }))) (sym h)
        (wait_testing es (s.task_queue) (s.pushing) (s.thread_state) (s.delegated) (omega arith))
  delay_stop_thread-returns es s (inr h) enough =
      subst (λ p. Returns (delay_stop_thread es (record s { place = p }))) (sym h)
        (wait_polling es (s.task_queue) (s.pushing) (s.thread_state) (s.delegated) enough)
