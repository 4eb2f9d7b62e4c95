-- ===== src/Tests/Join.antt =====
-- A client that waits for the worker to end.
use septem_cpp.Common.{ℕ, ◌≡◌, refl, inl, List, [], ◌∷◌, true, false, some, none, arith}
use septem_cpp.Thread.{
  TaskThread, Event, worker, stop, push, happen, work, work_at, stop_thread, poll, pop_task,
  testing, starting, ended, wait, join_thread, delay_stop_thread,
}
use septem_cpp.Thread.Join.{delay_stop_thread-returns}

abbrev looping : TaskThread ℕ
looping = record {
  running = true;
  thread_state = 2;
  task_queue = some 5 ∷ [];
  pushing = [];
  place = testing;
  delegated = [];
}

abbrev others : List (Event ℕ)
others = push (some 7) ∷ worker ∷ stop ∷ worker ∷ push (some 8) ∷ worker ∷ []

delay_stop_thread-returns_example :
    (t : TaskThread ℕ) × (delay_stop_thread others looping ≡ some t)
    × (t.place ≡ ended)
    × (t.thread_state ≡ 3)
    × (t.running ≡ false)
delay_stop_thread-returns_example =
    delay_stop_thread-returns others looping (inl refl) (omega arith)

-- A worker that has only been created goes on, and the caller waits.
abbrev created : TaskThread ℕ
created = record looping { running = false; place = starting }

still_waiting :
    delay_stop_thread (worker ∷ worker ∷ worker ∷ worker ∷ worker ∷ worker ∷ worker ∷ []) created
    ≡ none
unfolding delay_stop_thread join_thread wait happen work work_at stop_thread poll pop_task
still_waiting = refl
