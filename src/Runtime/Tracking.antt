-- ===== src/Runtime/Tracking.antt =====
-- Where the ids of the tasks of worker.rs are: spawned, live or finished, and if live then in the
-- scheduling queue or waiting.
use krcore_artifacts.Prelude.{
  ℕ, ◌+◌, ◌∷◌, [], ◌++◌, ◌<◌, ◌≤◌, ◌≡◌, refl, sym, ap, subst, inl, inr, List, length, if◌then◌else◌,
  ltb, arith, length-append, Bool-cases,
}
use krcore_artifacts.Prelude.Maps.{
  insert, remove, lookup, keys, count, hit, hit_self, count-append, count-insert, length-insert,
  count-remove_one, length-remove, lookup-of_count,
}
use krcore_artifacts.Prelude.Effects.{Leaves, Leaves-done, Leaves-panic, Leaves-resume, Leaves-map}
use krcore_artifacts.Runtime.{Task}
use krcore_artifacts.Runtime.Worker.{
  Worker, max_tasks, wake_task, accept, accept_all, wake_all, wake_found,
}

module _ {Waitable R : Type 0} where
  abbrev pub tids : List (Task Waitable R) → List ℕ
  tids [] = []
  tids (task ∷ ts) = task.tid ∷ tids ts

  pub tids-append : (xs ys : List (Task Waitable R)) → tids (xs ++ ys) ≡ tids xs ++ tids ys
  tids-append [] ys = refl
  tids-append (x ∷ xs) ys = ap (◌∷◌ x.tid) (tids-append xs ys)

  -- Tasks that are spawned and not finished.
  abbrev pub live : Worker Waitable R → ℕ
  live s = length s.spawner + length s.tasks

  -- How often the id has been given to a task.
  abbrev pub given : ℕ → Worker Waitable R → ℕ
  given j s = if ltb j s.task_id_gen then 1 else 0

  -- With the tasks `held` in the worker's hands: every other task is in the scheduling queue or
  -- waiting, once. An id that was given is in the spawner or in the map of tasks, or has sent its
  -- result, once; and at most `n` tasks are live.
  pub record Tracked (n : ℕ) (held : List ℕ) (s : Worker Waitable R) : Type 0 where
    pub placed :
        (j : ℕ) → count j held + count j s.queue + count j (keys s.waiting) ≡ count j (keys s.tasks)
    pub once :
        (j : ℕ)
        → count j (tids s.spawner) + count j (keys s.tasks) + count j (keys s.sent) ≡ given j s
    pub sizes : length held + length s.queue + length s.waiting ≡ length s.tasks
    pub few : live s ≤ n

  pub given_le : (j : ℕ) (s : Worker Waitable R) → given j s ≤ 1
  given_le j s = elim (Bool-cases (ltb j s.task_id_gen)) [
    | inl e ↦ rw e (omega arith)
    | inr e ↦ rw e (omega arith)
  ]

  abbrev pub queued : ℕ → Worker Waitable R → Worker Waitable R
  queued id s = record s { queue = s.queue ++ id ∷ [] }

  -- What waking a task leaves: nothing but the queue has changed.
  pub record Woken (n : ℕ) (held : List ℕ) (id : ℕ) (s s' : Worker Waitable R) : Type 0 where
    pub tracked : Tracked n held s'
    pub rest : s' ≡ queued id s

  pub wake_task-Tracked :
      (n : ℕ) (held : List ℕ) (id : ℕ) (s : Worker Waitable R)
      → Tracked n (id ∷ held) s
      → Leaves (max_tasks < n) (λ _ s'. Woken n held id s s') (wake_task id s)
  unfolding wake_task
  wake_task-Tracked n held id s h = elim (Bool-cases (ltb (length s.queue) max_tasks)) [
    | inl e ↦
        rw (e, wake_task)
          (Leaves-done _ _ _ _ (record {
            tracked = record {
              placed = λ j. omega (arith, h.placed j, count-append j s.queue (id ∷ []));
              once = h.once;
              sizes = omega (arith, h.sizes, length-append s.queue (id ∷ []));
              few = h.few;
            };
            rest = refl;
          }))
    | inr e ↦
        rw (e, wake_task)
          (Leaves-panic _ _ (
            let full : max_tasks ≤ length s.queue = ground (arith, e) in
            omega (arith, full, h.sizes, h.few)))
  ]

  -- A task of the spawner is not in the map of tasks.
  accepted :
      (n : ℕ) (held : List ℕ) (task : Task Waitable R) (left : List (Task Waitable R))
      (s : Worker Waitable R)
      → Tracked n held s
      → s.spawner ≡ task ∷ left
      → Tracked n
          (task.tid ∷ held)
          (record s { spawner = left; tasks = insert task.tid task.future s.tasks })
  accepted n held task left s h e =
      let id = task.tid in
      let at : (j : ℕ) → count j (tids s.spawner) ≡ hit j id + count j (tids left) =
        λ j. ap (λ l. count j (tids l)) e in
      let absent : count id (keys s.tasks) ≡ 0 =
        omega (arith, h.once id, at id, hit_self id, given_le id s) in
      let grown : (j : ℕ)
          → count j (keys (insert id task.future s.tasks)) ≡ hit j id + count j (keys s.tasks) =
        λ j. count-insert j id task.future s.tasks absent in
      record {
        placed = λ j. omega (arith, h.placed j, grown j);
        once = λ j. omega (arith, h.once j, at j, grown j);
        sizes = omega (arith, h.sizes, length-insert id task.future s.tasks absent);
        few =
            omega (arith, h.few, length-insert id task.future s.tasks absent, ap (λ l. length l) e);
      }

  -- What accepting leaves: the invariant, and what is left in the spawner.
  pub record Accepted (n : ℕ) (left : List (Task Waitable R)) (s' : Worker Waitable R)
      : Type 0 where
    pub tracked : Tracked n [] s'
    pub rest : s'.spawner ≡ left

  pub accept-Tracked :
      (n : ℕ) (task : Task Waitable R) (left : List (Task Waitable R)) (s : Worker Waitable R)
      → Tracked n [] s
      → s.spawner ≡ task ∷ left
      → Leaves (max_tasks < n) (λ _ s'. Accepted n left s') (accept task left s)
  unfolding accept
  accept-Tracked n task left s h e =
      Leaves-map _ _ _ _ _ (λ c. c)
        (λ u s' w. record { tracked = w.tracked; rest = ap (λ x. x.spawner) w.rest })
        (wake_task-Tracked n [] task.tid _ (accepted n [] task left s h e))

  pub accept_all-Tracked :
      (n : ℕ) (ts : List (Task Waitable R)) (s : Worker Waitable R)
      → Tracked n [] s
      → s.spawner ≡ ts
      → Leaves (max_tasks < n) (λ _ s'. Accepted n [] s') (accept_all ts s)
  unfolding accept_all
  accept_all-Tracked n [] s h e = Leaves-done _ _ _ _ (record { tracked = h; rest = e })
  accept_all-Tracked n (task ∷ left) s h e =
      Leaves-resume _ _ _ (accept task left s) _ (accept-Tracked n task left s h e)
        (λ u s' a. accept_all-Tracked n left s' a.tracked a.rest)

  -- A waiting task is woken: it is out of the map of what is waited for, and in hand.
  pub taken :
      (n : ℕ) (id : ℕ) (s : Worker Waitable R)
      → Tracked n [] s
      → 0 < count id (keys s.waiting)
      → Tracked n (id ∷ []) (record s { waiting = remove id s.waiting })
  taken n id s h there =
      let one : count id (keys s.waiting) ≡ 1 =
        omega (arith, h.placed id, h.once id, given_le id s, there) in
      record {
        placed = λ j. omega (arith, h.placed j, count-remove_one j id s.waiting one);
        once = h.once;
        sizes = omega (arith, h.sizes, length-remove id s.waiting, one);
        few = h.few;
      }

  -- Tasks that wait are woken, one after the other.
  pub wake_all-Tracked :
      (n : ℕ) (ids : List ℕ) (s : Worker Waitable R)
      → Tracked n [] s
      → ((j : ℕ) → count j ids ≤ count j (keys s.waiting))
      → Leaves (max_tasks < n) (λ _ s'. Tracked n [] s') (wake_all ids s)
  unfolding wake_all
  wake_all-Tracked n [] s h wait = Leaves-done _ _ _ _ h
  wake_all-Tracked n (id ∷ ids) s h wait =
      let there : 0 < count id (keys s.waiting) = omega (arith, wait id, hit_self id) in
      let s1 = record s { waiting = remove id s.waiting } in
      let (f, at) = lookup-of_count id s.tasks (omega (arith, there, h.placed id)) in
      let known : wake_found id (lookup id s.tasks) s1 ≡ wake_task id s1 =
        ap (λ o. wake_found id o s1) at in
      Leaves-resume _ _ _ (wake_found id (lookup id s.tasks) s1) _
        (subst (Leaves _ _) (sym known) (wake_task-Tracked n [] id s1 (taken n id s h there)))
        (λ u s' w.
          wake_all-Tracked n ids s' w.tracked (λ j. rest j s' (ap (λ x. x.waiting) w.rest)))
    where
      rest :
          (j : ℕ) (s' : Worker Waitable R)
          → s'.waiting ≡ remove id s.waiting
          → count j ids ≤ count j (keys s'.waiting)
      rest j s' e =
          let one : count id (keys s.waiting) ≡ 1 =
            omega (arith, h.placed id, h.once id, given_le id s, wait id, hit_self id) in
          rw e (omega (arith, wait j, count-remove_one j id s.waiting one))
