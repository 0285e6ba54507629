-- ===== src/Runtime/Separate.antt =====
-- Every step of a worker of worker.rs keeps the boxes of waiting tasks apart.
use krcore_artifacts.Prelude.{
  ℕ, ◌∷◌, [], refl, inl, inr, true, false, Option, none, some, List, length, get_or, ltb, arith,
  Bool-cases, ap,
}
use krcore_artifacts.Prelude.Maps.{lookup, remove, count}
use krcore_artifacts.Prelude.Effects.{
  Leaves, Leaves-done, Leaves-panic, Leaves-resume, Leaves-result,
}
use krcore_artifacts.Runtime.{
  WaitStatus, Future, output, yielding, wait_on, in_wait, Task, Poll, poll_ready, pending,
}
use krcore_artifacts.Runtime.Worker.{
  Worker, max_tasks, new_worker, spawn, wake_task, poll, accept, pop, pop_from, settle, poll_found,
  run_task, wake_found, wake_all, wait_round,
}
use krcore_artifacts.Runtime.Reach.{spawned, accepted, polled, waited, Reaches, now, after}
use krcore_artifacts.Runtime.Boxes.{Apart, Apart-less, Apart-start, ask-flags, count-flags-remove}

module _ {Waitable R : Type 0} where
  abbrev pub IsApart : Worker Waitable R → Type 0
  IsApart s = Apart s.waiting s.boxes

  abbrev Keeps : {A : Type 0} → A → Worker Waitable R → Type 0
  Keeps a s = IsApart s

  wake_task-IsApart :
      (id : ℕ) (s : Worker Waitable R) → IsApart s → Leaves (Unit {0}) Keeps (wake_task id s)
  unfolding wake_task
  wake_task-IsApart id s h = elim (Bool-cases (ltb (length s.queue) max_tasks)) [
    | inl e ↦ rw (e, wake_task) (Leaves-done _ _ _ _ h)
    | inr e ↦ rw (e, wake_task) (Leaves-panic _ _ tt)
  ]

  poll-IsApart :
      (id : ℕ) (f : Future Waitable R) (s : Worker Waitable R)
      → IsApart s
      → Leaves (Unit {0}) Keeps (poll id f s)
  unfolding poll
  poll-IsApart id (output r) s h = Leaves-done _ _ _ _ h
  poll-IsApart id (yielding true f) s h = poll-IsApart id f s h
  poll-IsApart id (yielding false f) s h =
      Leaves-resume _ _ _ (wake_task id s) _ (wake_task-IsApart id s h)
        (λ u s' h'. Leaves-done _ _ _ _ h')
  poll-IsApart id (wait_on w k) s h = Leaves-done _ _ _ _ (Apart-start w s h)
  poll-IsApart id (in_wait address k) s h = poll-IsApart id (k (get_or s.boxes address false)) s h

  settle-IsApart :
      (id : ℕ) (p : Poll R (Future Waitable R)) (s : Worker Waitable R)
      → IsApart s
      → Leaves (Unit {0}) Keeps (settle id p s)
  settle-IsApart id (poll_ready r) s h = Leaves-done _ _ _ _ h
  settle-IsApart id (pending f) s h = Leaves-done _ _ _ _ h

  run_task-IsApart :
      (found : Option ℕ) (s : Worker Waitable R)
      → IsApart s
      → Leaves (Unit {0}) Keeps (run_task found s)
  unfolding run_task
  run_task-IsApart none s h = Leaves-done _ _ _ _ h
  run_task-IsApart (some id) s h = go (lookup id s.tasks)
    where
      go : (f : Option (Future Waitable R)) → Leaves (Unit {0}) Keeps (poll_found id f s)
      go none = Leaves-done _ _ _ _ h
      go (some f) =
          Leaves-resume _ _ _ (poll id f (record s { task_id = id })) _
            (poll-IsApart id f (record s { task_id = id }) h) (λ p s' h'. settle-IsApart id p s' h')

  pop-IsApart :
      (q : List ℕ) (s : Worker Waitable R) → IsApart s → Leaves (Unit {0}) Keeps (pop_from q s)
  pop-IsApart [] s h = Leaves-done _ _ _ _ h
  pop-IsApart (id ∷ left) s h = Leaves-done _ _ _ _ h

  spawn-IsApart :
      (f : Future Waitable R) (s : Worker Waitable R)
      → IsApart s
      → Leaves (Unit {0}) Keeps (spawn f s)
  unfolding spawn
  spawn-IsApart f s h = elim (Bool-cases (ltb (length s.spawner) max_tasks)) [
    | inl e ↦ rw (e, spawn) (Leaves-done _ _ _ _ h)
    | inr e ↦ rw (e, spawn) (Leaves-panic _ _ tt)
  ]

  accept-IsApart :
      (task : Task Waitable R) (left : List (Task Waitable R)) (s : Worker Waitable R)
      → IsApart s
      → Leaves (Unit {0}) Keeps (accept task left s)
  unfolding accept
  accept-IsApart task left s h = wake_task-IsApart task.tid _ h

  wake_found-IsApart :
      (id : ℕ) (f : Option (Future Waitable R)) (s : Worker Waitable R)
      → IsApart s
      → Leaves (Unit {0}) Keeps (wake_found id f s)
  wake_found-IsApart id none s h = Leaves-done _ _ _ _ h
  wake_found-IsApart id (some f) s h = wake_task-IsApart id s h

  wake_all-IsApart :
      (ids : List ℕ) (s : Worker Waitable R) → IsApart s → Leaves (Unit {0}) Keeps (wake_all ids s)
  unfolding wake_all
  wake_all-IsApart [] s h = Leaves-done _ _ _ _ h
  wake_all-IsApart (id ∷ ids) s h =
      let s1 = record s { waiting = remove id s.waiting } in
      let h1 =
        Apart-less s.waiting s1.waiting s.boxes s.boxes h (λ a. count-flags-remove a id s.waiting)
          refl in
      Leaves-resume _ _ _ (wake_found id (lookup id s.tasks) s1) _
        (wake_found-IsApart id (lookup id s.tasks) s1 h1) (λ u s' h'. wake_all-IsApart ids s' h')

  module _ (wait_one_round : Waitable → WaitStatus × Waitable) where
    wait_round-IsApart :
        (s : Worker Waitable R) → IsApart s → Leaves (Unit {0}) Keeps (wait_round wait_one_round s)
    unfolding wait_round
    wait_round-IsApart s h =
        let (same, size) = ask-flags wait_one_round s.waiting s.boxes in
        wake_all-IsApart _ _
          (Apart-less s.waiting _ s.boxes _ h (λ a. omega (arith, ap (count a) same)) size)

    -- From a new worker on, no two tasks wait with the same box.
    pub Reaches-IsApart :
        (n : ℕ) (s : Worker Waitable R) → Reaches wait_one_round (new_worker n) s → IsApart s
    Reaches-IsApart n s now = record {
      distinct = λ a. omega arith;
      allocated = λ a there. absurd (omega (arith, there));
    }
    Reaches-IsApart n s (after s1 s2 r (spawned f id s3 small e)) =
        Leaves-result _ _ _ _ _ (spawn-IsApart f s1 (Reaches-IsApart n s1 r)) e
    Reaches-IsApart n s (after s1 s2 r (accepted task left s3 e q)) =
        Leaves-result _ _ _ _ _ (accept-IsApart task left s1 (Reaches-IsApart n s1 r)) q
    Reaches-IsApart n s (after s1 s2 r (polled s3 e)) =
        Leaves-result _ _ _ _ _
          (Leaves-resume _ _ _ (pop s1) run_task (pop-IsApart s1.queue s1 (Reaches-IsApart n s1 r))
            (λ found s4 h4. run_task-IsApart found s4 h4))
          e
    Reaches-IsApart n s (after s1 s2 r (waited s3 e)) =
        Leaves-result _ _ _ _ _ (wait_round-IsApart s1 (Reaches-IsApart n s1 r)) e
