-- ===== src/Tests/Thread.antt =====
-- The task thread and the factory at concrete inputs.
use septem_cpp.Common.{
  ℕ, ◌+◌, ◌≡◌, refl, List, [], ◌∷◌, ◌++◌, ◌⊎◌, inl, true, false, if◌then◌else◌, ◌==◌, Option, some,
  none, done,
}
use septem_cpp.Common.Int.{pos, eq_int}
use septem_cpp.Wire.Head
use septem_cpp.Thread.{
  TaskThread, Event, worker, stop, clear, pop, push, enqueue, run, testing, starting, ended, happen,
  work, work_at, push_task, push_locked, client_pop_task, clear_task_queue, poll, pop_task,
  stop_thread,
}
use septem_cpp.Thread.Pushes.{accepted, tested, weight}
use septem_cpp.Thread.Order.{departures, pointers_of, worked_of, tasks_of, run-order}
use septem_cpp.Thread.Stop.{IsLooping, stop-ends, stop_lost}
use septem_cpp.Factory.{
  Delegate, Delegates, register_protocol_deserialize, is_protocol_register, lookup,
  call_protocol_deserialize, insert_delegate,
}
use septem_cpp.Factory.Registry.{lookup-register, call-register}

-- A worker in its loop.
abbrev in_loop : TaskThread ℕ
in_loop = record {
  running = true;
  thread_state = 2;
  task_queue = [];
  pushing = [];
  place = testing;
  delegated = [];
}

-- Of every two pushes that are tested, the later one comes first to the lock.
abbrev busy_run : List (Event ℕ)
busy_run =
    push (some 4)
    ∷ push (some 9)
    ∷ enqueue 1
    ∷ enqueue 0
    ∷ worker
    ∷ worker
    ∷ push none
    ∷ push (some 5)
    ∷ stop
    ∷ enqueue 1
    ∷ pop
    ∷ enqueue 0
    ∷ push (some 1)
    ∷ clear
    ∷ []

abbrev one_each : Option ℕ → ℕ
one_each t = 1

run-order_example :
    let ds = departures busy_run in_loop in
    (pointers_of ds ++ (run busy_run in_loop).task_queue ≡ [] ++ accepted busy_run in_loop)
    × (weight one_each (accepted busy_run in_loop)
          + weight one_each ((run busy_run in_loop).pushing)
        ≡ 0 + weight one_each (tested busy_run in_loop))
    × ((run busy_run in_loop).delegated ≡ [] ++ tasks_of (worked_of ds))
unfolding weight
run-order_example = run-order one_each busy_run in_loop

-- A push that was tested before the stop is made, and none is tested after it.
four_accepted :
    (accepted busy_run in_loop ≡ some 9 ∷ some 4 ∷ some 5 ∷ none ∷ [])
    × ((run busy_run in_loop).delegated ≡ 9 ∷ [])
    × ((run busy_run in_loop).task_queue ≡ [])
unfolding run happen work work_at push_task push_locked client_pop_task clear_task_queue poll
    pop_task stop_thread accepted
four_accepted = (refl, refl, refl)

stop-ends_example :
    let t = run (stop ∷ worker ∷ worker ∷ worker ∷ []) in_loop in
    (t.place ≡ ended) × (t.thread_state ≡ 3) × (t.running ≡ false)
stop-ends_example = stop-ends in_loop (inl refl)

abbrev new_thread : TaskThread ℕ
new_thread = record {
  running = false;
  thread_state = 0;
  task_queue = [];
  pushing = [];
  place = starting;
  delegated = [];
}

stop_lost_example :
    let t = run (stop ∷ worker ∷ worker ∷ worker ∷ []) new_thread in
    IsLooping t × (t.running ≡ true)
stop_lost_example = stop_lost new_thread (inl refl)

-- A deserialiser that counts its calls and reads the whole buffer.
abbrev counting : Delegate ℕ
counting head buffer size read w = done (pos size, w + 1)

abbrev no_delegates : Delegates ℕ
no_delegates = []

lookup-register_example :
    let (ok, m') = register_protocol_deserialize (pos 7) (some counting) no_delegates in
    ((ok ≡ true)
      × (is_protocol_register (pos 7) no_delegates ≡ false)
      × (lookup (pos 7) m'
          ≡ (if eq_int (pos 7) (pos 7) then some (some counting) else lookup (pos 7) no_delegates)))
    ⊎ ((ok ≡ false) × (is_protocol_register (pos 7) no_delegates ≡ true) × (m' ≡ no_delegates))
lookup-register_example = lookup-register (pos 7) (pos 7) (some counting) no_delegates

abbrev letter_head : Head.Head
letter_head = record (Head.init) { uid = 7 }

abbrev with_counting : Delegates ℕ
with_counting = (pos 7, some counting) ∷ []

call-register_example :
    call_protocol_deserialize with_counting letter_head (1 ∷ 2 ∷ []) 2 (pos 0) 5 ≡ (
      if 7 == 7
      then done (pos 2, 6)
      else call_protocol_deserialize [] letter_head (1 ∷ 2 ∷ []) 2 (pos 0) 5)
unfolding register_protocol_deserialize lookup insert_delegate
call-register_example =
    call-register 7 counting [] with_counting letter_head (1 ∷ 2 ∷ []) 2 (pos 0) 5 refl
