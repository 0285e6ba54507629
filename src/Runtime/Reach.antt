-- ===== src/Runtime/Reach.antt =====
-- Every interleaving of a worker's thread of worker.rs with threads that spawn tasks. What the
-- thread does between two looks at what it shares with them is one step, and so is a `spawn`.
use krcore_artifacts.Prelude.{
  ℕ, suc, ◌+◌, ◌∷◌, [], ◌++◌, ◌<◌, ◌≡◌, refl, ap, inl, inr, List, done, length, if◌then◌else◌, ltb,
  word, arith, eq_cases, Bool-cases, add64,
}
use krcore_artifacts.Prelude.Maps.{count, hit, hit_self, hit_ne, count-append}
use krcore_artifacts.Prelude.Effects.{
  resume, Leaves, Leaves-done, Leaves-panic, Leaves-resume, Leaves-result,
}
use krcore_artifacts.Runtime.{WaitStatus, Future, Task}
use krcore_artifacts.Runtime.Worker.{
  Worker, max_tasks, new_worker, spawn, accept, pop, run_task, wait_round,
}
use krcore_artifacts.Runtime.Tracking.{Tracked, tids, tids-append, live, accept-Tracked}
use krcore_artifacts.Runtime.Rounds.{pop-Tracked, run_task-Tracked, wait_round-Tracked}

-- The next id is one more, and it is given once.
given-next :
    (j : ℕ) (id : ℕ) → (if ltb j (suc id) then 1 else 0) ≡ hit j id + (if ltb j id then 1 else 0)
given-next j id = elim (eq_cases j id) [
  | inl e ↦ rw e (ground (arith, hit_self id))
  | inr ne ↦ ground (arith, hit_ne j id ne, ne)
]

module _ {Waitable R : Type 0} (wait_one_round : Waitable → WaitStatus × Waitable) where
  pub data Step (s : Worker Waitable R) : Worker Waitable R → Type 0 where
    spawned :
        (f : Future Waitable R) (id : ℕ) (s' : Worker Waitable R)
        → suc s.task_id_gen < word
        → spawn f s ≡ done (id, s')
        → Step s s'
    accepted :
        (task : Task Waitable R) (left : List (Task Waitable R)) (s' : Worker Waitable R)
        → s.spawner ≡ task ∷ left
        → accept task left s ≡ done (tt, s')
        → Step s s'
    polled : (s' : Worker Waitable R) → resume (pop s) run_task ≡ done (tt, s') → Step s s'
    waited : (s' : Worker Waitable R) → wait_round wait_one_round s ≡ done (tt, s') → Step s s'

  pub data Reaches (s : Worker Waitable R) : Worker Waitable R → Type 0 where
    now : Reaches s s
    after : (s1 s2 : Worker Waitable R) → Reaches s s1 → Step s1 s2 → Reaches s s2

  spawn-Tracked :
      (f : Future Waitable R) (s : Worker Waitable R)
      → suc s.task_id_gen < word
      → Tracked (live s) [] s
      → Leaves (Unit {0}) (λ _ s'. Tracked (live s') [] s') (spawn f s)
  unfolding spawn
  spawn-Tracked f s small h =
      let id = s.task_id_gen in
      let task : Task Waitable R = record { future = f; tid = id } in
      let exact : add64 id 1 ≡ suc id = omega (arith, small) in
      let tail : (j : ℕ)
          → count j (tids (s.spawner ++ task ∷ [])) ≡ count j (tids s.spawner) + hit j id =
        λ j. omega (
          arith,
          ap (count j) (tids-append s.spawner (task ∷ [])),
          count-append j (tids s.spawner) (id ∷ []),
        ) in
      elim (Bool-cases (ltb (length s.spawner) max_tasks)) [
        | inl e ↦
            rw (e, exact, spawn)
              (Leaves-done _ _ _ _ (record {
                placed = h.placed;
                once = λ j. omega (arith, h.once j, tail j, given-next j id);
                sizes = h.sizes;
                few = omega arith;
              }))
        | inr e ↦ rw (e, spawn) (Leaves-panic _ _ tt)
      ]

  -- The bound on the live tasks is their number.
  exact_bound : (n : ℕ) (s : Worker Waitable R) → Tracked n [] s → Tracked (live s) [] s
  exact_bound n s h = record {
    placed = h.placed;
    once = h.once;
    sizes = h.sizes;
    few = omega arith;
  }

  pub Step-Tracked :
      (s s' : Worker Waitable R) → Tracked (live s) [] s → Step s s' → Tracked (live s') [] s'
  Step-Tracked s s' h (spawned f id s2 small e) =
      Leaves-result _ _ _ _ _ (spawn-Tracked f s small h) e
  Step-Tracked s s' h (accepted task left s2 e q) =
      exact_bound _ _ (Leaves-result _ _ _ _ _ (accept-Tracked (live s) task left s h e) q).tracked
  Step-Tracked s s' h (polled s2 e) = exact_bound _ _ (
      Leaves-result _ _ _ _ _
        (Leaves-resume _ _ _ (pop s) run_task (pop-Tracked (live s) s h)
          (λ found s1 h1. run_task-Tracked (live s) found s1 h1))
        e)
  Step-Tracked s s' h (waited s2 e) =
      exact_bound _ _ (Leaves-result _ _ _ _ _ (wait_round-Tracked wait_one_round (live s) s h) e)

  new_worker-Tracked : (n : ℕ) → Tracked {Waitable = Waitable} {R = R} 0 [] (new_worker n)
  new_worker-Tracked n = record {
    placed = λ j. refl;
    once = λ j. ground arith;
    sizes = refl;
    few = omega arith;
  }

  -- Let every spawn run from taking its id to pushing its task without another step in between, and let
  -- no step panic, which a full spawner or scheduling queue causes. However such whole spawns and the
  -- steps of the worker's thread follow each other: from a new worker on, while fewer than 2^64 tasks
  -- are spawned, no task is lost or duplicated.
  -- Every id that was given is in the spawner, in the map of tasks, or among the results, exactly
  -- once, and no other id is. Every task of the map is in the scheduling queue or waiting, exactly
  -- once, and nothing else is.
  pub Reaches-Tracked :
      (n : ℕ) (s : Worker Waitable R) → Reaches (new_worker n) s → Tracked (live s) [] s
  Reaches-Tracked n s now = new_worker-Tracked n
  Reaches-Tracked n s (after s1 s2 r step) = Step-Tracked s1 s2 (Reaches-Tracked n s1 r) step
