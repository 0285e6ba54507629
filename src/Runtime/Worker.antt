-- ===== src/Runtime/Worker.antt =====
-- KRdmaKit/src/runtime/{worker,task,tid,waitable}.rs: `Worker`, the state of its thread, and the
-- parts of the thread's main loop. An `ArrayQueue` is a list, with its capacity where it is pushed to.
use krcore_artifacts.Prelude.{
  ℕ, zero, suc, ◌∷◌, [], ◌++◌, Bool, true, false, Option, none, some, List, done, panic, length,
  set, get_or, if◌then◌else◌, ltb, add64,
}
use krcore_artifacts.Prelude.Maps.{Map, insert, remove, put, lookup}
use krcore_artifacts.Prelude.Effects.{Eff, pure, resume, look, ◌>>=◌}
use krcore_artifacts.Runtime.{
  WaitStatus, is_ready, is_error, Poll, poll_ready, pending, Future, output, yielding, wait_on,
  in_wait, WaitableWrapper, Task,
}

-- `Worker`, with whether it has a join handle, that is, a thread, and whether that runs the main loop; with the locals `queue` and `tasks` of its thread, the thread's `WAITING` and `TASK_ID`,
-- the boxes that `wait_on` allocates, by address, and what each task has sent to its join handle.
pub record Worker (Waitable R : Type 0) : Type 0 where
  pub join_handle : Bool
  pub in_loop : Bool
  pub spawner : List (Task Waitable R)
  pub task_id_gen : ℕ
  pub task_per_round : ℕ
  pub queue : List ℕ
  pub tasks : Map (Future Waitable R)
  pub waiting : Map (WaitableWrapper Waitable)
  pub task_id : ℕ
  pub boxes : List Bool
  pub sent : Map R

-- The capacity of the spawner and of the scheduling queue.
abbrev pub max_tasks : ℕ
max_tasks = 1024

-- `set_flag` on the answer of the waitable.
abbrev pub set_flag : WaitStatus → ℕ → List Bool → List Bool
set_flag status address boxes =
    if is_ready status
    then set boxes address true
    else if is_error status
    then set boxes address false
    else boxes

-- `vec.push(*task_id)` on the answer of the waitable.
abbrev pub collect : WaitStatus → ℕ → List ℕ → List ℕ
collect status id ids =
    if is_ready status then id ∷ ids else if is_error status then id ∷ ids else ids

-- The entries of the map are asked in order: the ids that are collected, the entries after their
-- rounds, and the boxes.
unfoldable pub ask :
    {Waitable : Type 0}
    → (Waitable → WaitStatus × Waitable)
    → Map (WaitableWrapper Waitable)
    → List Bool
    → List ℕ × Map (WaitableWrapper Waitable) × List Bool
ask wait_one_round [] boxes = ([], [], boxes)
ask wait_one_round ((id, wrapper) ∷ m) boxes =
    let (status, inner) = wait_one_round wrapper.inner in
    let (ids, m', boxes') = ask wait_one_round m (set_flag status wrapper.flag boxes) in
    (collect status id ids, (id, record wrapper { inner = inner }) ∷ m', boxes')

module _ {Waitable R : Type 0} where
  -- `Worker::new`, and what a thread starts with.
  abbrev pub new_worker : ℕ → Worker Waitable R
  new_worker n = record {
    join_handle = false;
    in_loop = false;
    spawner = [];
    task_id_gen = 0;
    task_per_round = n;
    queue = [];
    tasks = [];
    waiting = [];
    task_id = 0;
    boxes = [];
    sent = [];
  }

  -- `TaskIdGenerator::next`, which wraps around.
  abbrev pub next_id : Eff (Worker Waitable R) ℕ
  next_id s = done (s.task_id_gen, record s { task_id_gen = add64 s.task_id_gen 1 })

  -- `Worker::spawn`, as one step: between the taking of the id and the push no other thread runs. The
  -- join handle is the task's id. A panic has no state after it.
  unfoldable pub spawn : Future Waitable R → Eff (Worker Waitable R) ℕ
  spawn f = do
    id ← next_id
    s ← look (λ s. s)
    if ltb (length s.spawner) max_tasks
        then (λ s.
            done (id, record s { spawner = s.spawner ++ record { future = f; tid = id } ∷ [] }))
        else (λ s. panic)

  -- `TaskWaker::wake_task`, and the `queue.push(task_id).unwrap()` of `find_task`.
  unfoldable pub wake_task : ℕ → Eff (Worker Waitable R) (Unit {0})
  wake_task id s =
      if ltb (length s.queue) max_tasks
      then done (tt, record s { queue = s.queue ++ id ∷ [] })
      else panic

  abbrev pub add_waitable : ℕ → WaitableWrapper Waitable → Worker Waitable R → Worker Waitable R
  add_waitable id wrapper s = record s { waiting = insert id wrapper s.waiting }

  -- The call of `wait_on` up to the end of its first poll: the box holds false, and the wrapper its
  -- address.
  abbrev pub start_wait : Waitable → Worker Waitable R → Worker Waitable R
  start_wait w s =
      add_waitable s.task_id (record { inner = w; flag = length s.boxes })
        (record s { boxes = s.boxes ++ false ∷ [] })

  -- `Task::poll`, in the context of the waker of the task `id`.
  unfoldable pub poll : ℕ → Future Waitable R → Eff (Worker Waitable R) (Poll R (Future Waitable R))
  poll id (output r) s = done (poll_ready r, s)
  poll id (yielding true f) s = poll id f s
  poll id (yielding false f) s = resume (wake_task id s) (λ u. pure (pending (yielding true f)))
  poll id (wait_on w k) s = done (pending (in_wait (length s.boxes) k), start_wait w s)
  poll id (in_wait address k) s = poll id (k (get_or s.boxes address false)) s

  -- One round of the loop of `find_task`: `task` is popped off the spawner, and `left` is left there.
  unfoldable pub accept :
      Task Waitable R → List (Task Waitable R) → Eff (Worker Waitable R) (Unit {0})
  accept task left s =
      wake_task task.tid (record s { spawner = left; tasks = insert task.tid task.future s.tasks })

  unfoldable pub accept_all : List (Task Waitable R) → Eff (Worker Waitable R) (Unit {0})
  accept_all [] = pure tt
  accept_all (task ∷ left) = do _ ← accept task left; accept_all left

  abbrev pub pop_from : List ℕ → Eff (Worker Waitable R) (Option ℕ)
  pop_from [] s = done (none, s)
  pop_from (id ∷ left) s = done (some id, record s { queue = left })

  -- `queue.pop()`
  abbrev pub pop : Eff (Worker Waitable R) (Option ℕ)
  pop s = pop_from s.queue s

  unfoldable pub find_task : Eff (Worker Waitable R) (Option ℕ)
  find_task s = resume (accept_all s.spawner s) (λ u. pop)

  -- What a poll leaves of the task `id`: when it is ready, the last thing that it has done is to send
  -- its result, and it is removed.
  abbrev pub settle : ℕ → Poll R (Future Waitable R) → Eff (Worker Waitable R) (Unit {0})
  settle id (poll_ready r) s =
      done (tt, record s { tasks = remove id s.tasks; sent = (id, r) ∷ s.sent })
  settle id (pending f) s = done (tt, record s { tasks = put id f s.tasks })

  abbrev pub poll_found : ℕ → Option (Future Waitable R) → Eff (Worker Waitable R) (Unit {0})
  poll_found id none s = done (tt, s)
  poll_found id (some f) s = resume (poll id f (record s { task_id = id })) (settle id)

  -- The closure that `find_task(..).map` is given.
  unfoldable pub run_task : Option ℕ → Eff (Worker Waitable R) (Unit {0})
  run_task none s = done (tt, s)
  run_task (some id) s = poll_found id (lookup id s.tasks) s

  unfoldable pub poll_next : Eff (Worker Waitable R) (Unit {0})
  poll_next = do id ← find_task; run_task id

  -- `for _ in 0..n`
  unfoldable pub poll_many : ℕ → Eff (Worker Waitable R) (Unit {0})
  poll_many zero = pure tt
  poll_many (suc n) = do _ ← poll_next; poll_many n

  abbrev pub wake_found : ℕ → Option (Future Waitable R) → Eff (Worker Waitable R) (Unit {0})
  wake_found id none s = done (tt, s)
  wake_found id (some f) s = wake_task id s

  unfoldable pub wake_all : List ℕ → Eff (Worker Waitable R) (Unit {0})
  wake_all [] s = done (tt, s)
  wake_all (id ∷ ids) s =
      resume (wake_found id (lookup id s.tasks) (record s { waiting = remove id s.waiting }))
        (λ u. wake_all ids)

  -- The part of a round that deals with what the tasks wait for.
  unfoldable pub wait_round :
      (Waitable → WaitStatus × Waitable) → Eff (Worker Waitable R) (Unit {0})
  wait_round wait_one_round s =
      let (ids, waiting, boxes) = ask wait_one_round s.waiting s.boxes in
      wake_all ids (record s { waiting = waiting; boxes = boxes })

  unfoldable pub round : (Waitable → WaitStatus × Waitable) → Eff (Worker Waitable R) (Unit {0})
  round wait_one_round = do
    s ← look (λ s. s)
    _ ← poll_many s.task_per_round
    wait_round wait_one_round

  -- `for _ in 0..n`: the main loop makes a million rounds before it looks whether it is to stop.
  -- No other thread spawns a task in between; Runtime/Reach has the steps that do.
  unfoldable pub rounds :
      (Waitable → WaitStatus × Waitable) → ℕ → Eff (Worker Waitable R) (Unit {0})
  rounds wait_one_round zero = pure tt
  rounds wait_one_round (suc n) = do _ ← round wait_one_round; rounds wait_one_round n
