-- ===== src/Thread.antt =====
-- `TTaskThread` of Core/Thread/SeptemThread.hpp: the worker thread and the clients that push tasks.
--
-- A run is a list of events: one step of the worker, or one of a client. `PushTask` is two steps, its
-- test and, when the client has the lock, the push; the other calls are one. A client that waits for
-- the worker to end waits while such events happen. The worker is created once. `Init` and `Destory` are the empty ones of the template, and the delegate only sees its task.
pub mod Scope
pub mod Pushes
pub mod Order
pub mod Stop
pub mod Join
use septem_cpp.Common.{
  ℕ, ◌≡◌, List, [], ◌∷◌, ◌++◌, Bool, true, false, if◌then◌else◌, Option, none, some, take, drop,
  ◌+◌,
}

-- Where the worker stands: not created; at the start of `ThreadRun`; before `bRunning = true`; before
-- `i_ThreadState = 2`; at the test of the loop; at `PopTask`; behind `Run`; returned.
pub data Place : Type 0 where
  absent starting initialised marking testing polling leaving ended : Place

-- A task is a shared pointer. `pushing` has those of the clients that stand behind the test of
-- `PushTask`; `delegated` records the tasks that `OnDoTask` passed on.
pub record TaskThread (A : Type 0) : Type 0 where
  pub running : Bool
  pub thread_state : ℕ
  pub task_queue : List (Option A)
  pub pushing : List (Option A)
  pub place : Place
  pub delegated : List A

module _ {A : Type 0} where
  -- The constructor.
  abbrev pub init : TaskThread A
  init = record {
    running = false;
    thread_state = 0;
    task_queue = [];
    pushing = [];
    place = absent;
    delegated = [];
  }

  -- The test of `PushTask`, in both overloads.
  unfoldable pub push_task : Option A → TaskThread A → TaskThread A
  push_task in_task s = if s.running then record s { pushing = s.pushing ++ in_task ∷ [] } else s

  -- The push of the client at `k` among those behind the test; no client is at a `k` out of range.
  unfoldable pub push_locked : ℕ → TaskThread A → TaskThread A
  push_locked k s = record s {
    task_queue = s.task_queue ++ take 1 (drop k (s.pushing));
    pushing = take k (s.pushing) ++ drop (k + 1) (s.pushing);
  }

  -- `PopTask` on the queue that it finds: the result, the output pointer and the new queue.
  unfoldable pub pop_task : Option A → List (Option A) → Bool × Option A × List (Option A)
  pop_task out_task [] = (false, out_task, [])
  pop_task out_task (t ∷ q) = (true, t, q)

  -- `PopTask` of a client.
  unfoldable pub client_pop_task : TaskThread A → TaskThread A
  unfolding pop_task
  client_pop_task s = record s { task_queue = (pop_task none (s.task_queue)).2 }

  unfoldable pub clear_task_queue : TaskThread A → TaskThread A
  clear_task_queue s = record s { task_queue = [] }

  unfoldable pub stop_thread : TaskThread A → TaskThread A
  stop_thread s = record s { running = false }

  -- `CreateThread`, for what `pthread_create` comes to.
  unfoldable pub create_thread : Bool → TaskThread A → TaskThread A
  create_thread ok s = if ok then record s { place = starting } else s

  -- `OnDoTask`, if the pointer is not null.
  abbrev pub do_task : Option A → TaskThread A → TaskThread A
  do_task none s = s
  do_task (some a) s = record s { delegated = s.delegated ++ a ∷ [] }

  -- `if (PopTask(pCacheTask) && pCacheTask) OnDoTask(pCacheTask);`
  unfoldable pub poll : TaskThread A → TaskThread A
  unfolding pop_task
  poll s =
      let (ok, task, q) = pop_task none (s.task_queue) in
      let t : TaskThread A = record s { task_queue = q; place = testing } in
      if ok then do_task task t else t

  -- One step of `ThreadRun` and `Run`.
  unfoldable pub work_at : Place → TaskThread A → TaskThread A
  unfolding poll
  work_at absent s = s
  work_at starting s = record s { thread_state = 1; place = initialised }
  work_at initialised s = record s { running = true; place = marking }
  work_at marking s = record s { thread_state = 2; place = testing }
  work_at testing s = record s { place = if s.running then polling else leaving }
  work_at polling s = poll s
  work_at leaving s = record s { thread_state = 3; place = ended }
  work_at ended s = s

  unfoldable pub work : TaskThread A → TaskThread A
  unfolding work_at
  work s = work_at (s.place) s

-- What happens: the worker's step, or a client's.
pub data Event (A : Type 0) : Type 0 where
  worker stop clear pop : Event A
  push : Option A → Event A
  enqueue : ℕ → Event A

module _ {A : Type 0} where
  unfoldable pub happen : Event A → TaskThread A → TaskThread A
  unfolding work push_task push_locked client_pop_task clear_task_queue stop_thread
  happen worker s = work s
  happen stop s = stop_thread s
  happen clear s = clear_task_queue s
  happen pop s = client_pop_task s
  happen (push t) s = push_task t s
  happen (enqueue k) s = push_locked k s

  unfoldable pub run : List (Event A) → TaskThread A → TaskThread A
  unfolding happen
  run [] s = s
  run (e ∷ es) s = run es (happen e s)

-- Whether `ThreadRun` has returned, and whether `m_Thread` is set.
abbrev pub has_ended : Place → Bool
has_ended ended = true
has_ended _ = false

abbrev pub was_created : Place → Bool
was_created absent = false
was_created _ = true

module _ {A : Type 0} where
  -- `pthread_join`, while events happen: the state in which it returns, or `none` where the worker
  -- has not ended behind the last event.
  unfoldable pub wait : List (Event A) → TaskThread A → Option (TaskThread A)
  unfolding happen
  wait [] s = if has_ended (s.place) then some s else none
  wait (e ∷ es) s = let rest = wait es (happen e s) in if has_ended (s.place) then some s else rest

  -- `JoinThread` and `DelayStopThread`.
  unfoldable pub join_thread : List (Event A) → TaskThread A → Option (TaskThread A)
  unfolding wait
  join_thread es s = if was_created (s.place) then wait es s else some s

  unfoldable pub delay_stop_thread : List (Event A) → TaskThread A → Option (TaskThread A)
  unfolding join_thread stop_thread
  delay_stop_thread es s = join_thread es (stop_thread s)
