-- ===== src/Runtime/Rounds.antt =====
-- The main loop of worker.rs loses no task and runs none twice, and panics only if more than 1024
-- tasks are live.
use krcore_artifacts.Prelude.{
  ℕ, zero, suc, ◌+◌, ◌∷◌, [], ◌<◌, ◌≤◌, ◌≡◌, refl, sym, ap, subst, Bool, true, false, Option, none,
  some, List, length, get_or, arith,
}
use krcore_artifacts.Prelude.Maps.{
  Map, keys, count, hit, hit_self, count-insert, length-insert, count-remove_one, length-remove,
  keys-put, length-put, lookup-of_count,
}
use krcore_artifacts.Prelude.Effects.{Leaves, Leaves-done, Leaves-resume}
use krcore_artifacts.Runtime.{
  WaitStatus, WaitableWrapper, Future, output, yielding, wait_on, in_wait, Poll, poll_ready,
  pending,
}
use krcore_artifacts.Runtime.Worker.{
  Worker, max_tasks, wake_task, start_wait, poll, accept_all, pop, pop_from, find_task, settle,
  poll_found, run_task, poll_next, poll_many, ask, collect, set_flag, wait_round, round, rounds,
}
use krcore_artifacts.Runtime.Tracking.{
  Tracked, given_le, wake_task-Tracked, accept_all-Tracked, wake_all-Tracked,
}

abbrev pub held_by : Option ℕ → List ℕ
held_by none = []
held_by (some id) = id ∷ []

collect_le :
    (j : ℕ) (status : WaitStatus) (id : ℕ) (ids : List ℕ)
    → count j (collect status id ids) ≤ hit j id + count j ids
collect_le j WaitStatus.ready id ids = omega arith
collect_le j WaitStatus.waiting id ids = omega arith
collect_le j WaitStatus.error id ids = omega arith

module _ {Waitable : Type 0} (wait_one_round : Waitable → WaitStatus × Waitable) where
  -- The entries keep their keys, and the ids that are collected are among these.
  ask-keys :
      (m : Map (WaitableWrapper Waitable)) (boxes : List Bool)
      → (keys (ask wait_one_round m boxes).1 ≡ keys m)
        × ((j : ℕ) → count j (ask wait_one_round m boxes).0 ≤ count j (keys m))
        × (length (ask wait_one_round m boxes).1 ≡ length m)
  unfolding ask
  ask-keys [] boxes = (refl, λ j. omega arith, refl)
  ask-keys ((id, wrapper) ∷ m) boxes =
      let (status, inner) = wait_one_round wrapper.inner in
      let (same, among, size) = ask-keys m (set_flag status wrapper.flag boxes) in
      (
        ap (◌∷◌ id) same,
        λ j. omega (
          arith,
          among j,
          collect_le j status id (ask wait_one_round m (set_flag status wrapper.flag boxes)).0,
        ),
        ap suc size,
      )

module _ {Waitable R : Type 0} where
  -- A ready task is still in hand; another one is back in the queue, or waits.
  abbrev pub held_after : ℕ → Poll R (Future Waitable R) → List ℕ
  held_after id (poll_ready r) = id ∷ []
  held_after id (pending f) = []

  start_wait-Tracked :
      (n : ℕ) (id : ℕ) (w : Waitable) (s : Worker Waitable R)
      → Tracked n (id ∷ []) s
      → s.task_id ≡ id
      → Tracked n [] (start_wait w s)
  start_wait-Tracked n id w s h e =
      let wrapper : WaitableWrapper Waitable = record { inner = w; flag = length s.boxes } in
      let now : (j : ℕ) → hit j s.task_id ≡ hit j id = λ j. ap (hit j) e in
      let same : count s.task_id (keys s.waiting) ≡ count id (keys s.waiting) =
        ap (λ i. count i (keys s.waiting)) e in
      let absent : count s.task_id (keys s.waiting) ≡ 0 =
        omega (arith, same, h.placed id, h.once id, given_le id s, hit_self id) in
      record {
        placed = λ j.
            omega (arith, h.placed j, now j, count-insert j s.task_id wrapper s.waiting absent);
        once = h.once;
        sizes = omega (arith, h.sizes, length-insert s.task_id wrapper s.waiting absent);
        few = h.few;
      }

  pub poll-Tracked :
      (n : ℕ) (id : ℕ) (f : Future Waitable R) (s : Worker Waitable R)
      → Tracked n (id ∷ []) s
      → s.task_id ≡ id
      → Leaves (max_tasks < n) (λ p s'. Tracked n (held_after id p) s') (poll id f s)
  unfolding poll
  poll-Tracked n id (output r) s h e = Leaves-done _ _ _ _ h
  poll-Tracked n id (yielding true f) s h e = poll-Tracked n id f s h e
  poll-Tracked n id (yielding false f) s h e =
      Leaves-resume _ _ _ (wake_task id s) _ (wake_task-Tracked n [] id s h)
        (λ u s' w. Leaves-done _ _ _ _ w.tracked)
  poll-Tracked n id (wait_on w k) s h e = Leaves-done _ _ _ _ (start_wait-Tracked n id w s h e)
  poll-Tracked n id (in_wait address k) s h e =
      poll-Tracked n id (k (get_or s.boxes address false)) s h e

  -- A ready task is one that has sent its result.
  settle-Tracked :
      (n : ℕ) (id : ℕ) (p : Poll R (Future Waitable R)) (s : Worker Waitable R)
      → Tracked n (held_after id p) s
      → Leaves (max_tasks < n) (λ _ s'. Tracked n [] s') (settle id p s)
  settle-Tracked n id (pending f) s h = Leaves-done _ _ _ _ (record {
    placed = λ j. omega (arith, h.placed j, ap (count j) (keys-put id f s.tasks));
    once = λ j. omega (arith, h.once j, ap (count j) (keys-put id f s.tasks));
    sizes = omega (arith, h.sizes, length-put id f s.tasks);
    few = omega (arith, h.few, length-put id f s.tasks);
  })
  settle-Tracked n id (poll_ready r) s h =
      let one : count id (keys s.tasks) ≡ 1 =
        omega (arith, h.placed id, h.once id, given_le id s, hit_self id) in
      Leaves-done _ _ _ _ (record {
        placed = λ j. omega (arith, h.placed j, count-remove_one j id s.tasks one);
        once = λ j. omega (arith, h.once j, count-remove_one j id s.tasks one);
        sizes = omega (arith, h.sizes, length-remove id s.tasks, one);
        few = omega (arith, h.few, length-remove id s.tasks, one);
      })

  poll_found-Tracked :
      (n : ℕ) (id : ℕ) (f : Future Waitable R) (s : Worker Waitable R)
      → Tracked n (id ∷ []) s
      → Leaves (max_tasks < n) (λ _ s'. Tracked n [] s') (poll_found id (some f) s)
  poll_found-Tracked n id f s h =
      let s1 = record s { task_id = id } in
      let h1 : Tracked n (id ∷ []) s1 = record {
        placed = h.placed;
        once = h.once;
        sizes = h.sizes;
        few = h.few;
      } in
      Leaves-resume _ _ _ (poll id f s1) _ (poll-Tracked n id f s1 h1 refl)
        (λ p s' h'. settle-Tracked n id p s' h')

  pub run_task-Tracked :
      (n : ℕ) (found : Option ℕ) (s : Worker Waitable R)
      → Tracked n (held_by found) s
      → Leaves (max_tasks < n) (λ _ s'. Tracked n [] s') (run_task found s)
  unfolding run_task
  run_task-Tracked n none s h = Leaves-done _ _ _ _ h
  run_task-Tracked n (some id) s h =
      let (f, at) = lookup-of_count id s.tasks (omega (arith, hit_self id, h.placed id)) in
      subst (λ o. Leaves (max_tasks < n) (λ _ s'. Tracked n [] s') (poll_found id o s)) (sym at)
        (poll_found-Tracked n id f s h)

  pub pop-Tracked :
      (n : ℕ) (s : Worker Waitable R)
      → Tracked n [] s
      → Leaves (max_tasks < n) (λ found s'. Tracked n (held_by found) s') (pop s)
  pop-Tracked n s h = go s.queue refl
    where
      go :
          (q : List ℕ)
          → s.queue ≡ q
          → Leaves (max_tasks < n) (λ found s'. Tracked n (held_by found) s') (pop_from q s)
      go [] e = Leaves-done _ _ _ _ h
      go (id ∷ left) e = Leaves-done _ _ _ _ (record {
        placed = λ j. omega (arith, h.placed j, ap (count j) e);
        once = h.once;
        sizes = omega (arith, h.sizes, ap (λ l. length l) e);
        few = h.few;
      })

  pub poll_next-Tracked :
      (n : ℕ) (s : Worker Waitable R)
      → Tracked n [] s
      → Leaves (max_tasks < n) (λ _ s'. Tracked n [] s') (poll_next s)
  unfolding poll_next find_task
  poll_next-Tracked n s h =
      Leaves-resume _ _ _ (find_task s) _
        (Leaves-resume _ _ _ (accept_all s.spawner s) _ (accept_all-Tracked n s.spawner s h refl)
          (λ u s' a. pop-Tracked n s' a.tracked))
        (λ found s' h'. run_task-Tracked n found s' h')

  pub poll_many-Tracked :
      (n m : ℕ) (s : Worker Waitable R)
      → Tracked n [] s
      → Leaves (max_tasks < n) (λ _ s'. Tracked n [] s') (poll_many m s)
  unfolding poll_many
  poll_many-Tracked n zero s h = Leaves-done _ _ _ _ h
  poll_many-Tracked n (suc m) s h =
      Leaves-resume _ _ _ (poll_next s) _ (poll_next-Tracked n s h)
        (λ u s' h'. poll_many-Tracked n m s' h')

  module _ (wait_one_round : Waitable → WaitStatus × Waitable) where
    pub wait_round-Tracked :
        (n : ℕ) (s : Worker Waitable R)
        → Tracked n [] s
        → Leaves (max_tasks < n) (λ _ s'. Tracked n [] s') (wait_round wait_one_round s)
    unfolding wait_round
    wait_round-Tracked n s h =
        let (same, among, size) = ask-keys wait_one_round s.waiting s.boxes in
        wake_all-Tracked n _ _
          (record {
            placed = λ j. omega (arith, h.placed j, ap (count j) same);
            once = h.once;
            sizes = omega (arith, h.sizes, size);
            few = h.few;
          })
          (λ j. omega (arith, among j, ap (count j) same))

    pub round-Tracked :
        (n : ℕ) (s : Worker Waitable R)
        → Tracked n [] s
        → Leaves (max_tasks < n) (λ _ s'. Tracked n [] s') (round wait_one_round s)
    unfolding round
    round-Tracked n s h =
        Leaves-resume _ _ _ (poll_many s.task_per_round s) _
          (poll_many-Tracked n s.task_per_round s h) (λ u s' h'. wait_round-Tracked n s' h')

    pub rounds-Tracked :
        (n m : ℕ) (s : Worker Waitable R)
        → Tracked n [] s
        → Leaves (max_tasks < n) (λ _ s'. Tracked n [] s') (rounds wait_one_round m s)
    unfolding rounds
    rounds-Tracked n zero s h = Leaves-done _ _ _ _ h
    rounds-Tracked n (suc m) s h =
        Leaves-resume _ _ _ (round wait_one_round s) _ (round-Tracked n s h)
          (λ u s' h'. rounds-Tracked n m s' h')
