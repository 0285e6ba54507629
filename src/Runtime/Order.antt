-- ===== src/Runtime/Order.antt =====
-- The scheduling queue of worker.rs is served first come, first served.
use mathlib.Core.List.{append-nil, append_assoc}
use krcore_artifacts.Prelude.{
  ℕ, zero, suc, ◌∷◌, [], ◌++◌, ◌≤◌, ◌≡◌, refl, sym, ◌∙◌, ap, subst, inl, inr, true, false, Option,
  none, some, List, length, get_or, ltb, arith, Bool-cases, drop,
}
use krcore_artifacts.Prelude.Maps.{lookup, remove}
use krcore_artifacts.Prelude.Effects.{
  resume, Leaves, Leaves-done, Leaves-panic, Leaves-resume, Leaves-result,
}
use krcore_artifacts.Runtime.{
  WaitStatus, Future, output, yielding, wait_on, in_wait, Task, Poll, poll_ready, pending,
}
use krcore_artifacts.Runtime.Worker.{
  Worker, max_tasks, spawn, wake_task, poll, accept, pop, pop_from, settle, poll_found, run_task,
  wake_found, wake_all, wait_round,
}
use krcore_artifacts.Runtime.Reach.{spawned, accepted, polled, waited, Reaches, now, after}

drop-front : (xs : List ℕ) (k : ℕ) → suc k ≤ length xs → (x : ℕ) × (drop k xs ≡ x ∷ drop (suc k) xs)
drop-front [] k h = absurd (omega (arith, h))
drop-front (x ∷ xs) zero h = (x, refl)
drop-front (x ∷ xs) (suc k) h = drop-front xs k (omega (arith, h))

drop-length : (xs : List ℕ) → drop (length xs) xs ≡ []
drop-length [] = refl
drop-length (x ∷ xs) = drop-length xs

module _ {Waitable R : Type 0} where
  -- The queue is `q` with more behind it.
  record Behind (q : List ℕ) (s' : Worker Waitable R) : Type 0 where
    more : List ℕ
    is : s'.queue ≡ q ++ more

  same-Behind : (q : List ℕ) (s' : Worker Waitable R) → s'.queue ≡ q → Behind q s'
  same-Behind q s' e = record { more = []; is = e ∙ sym (append-nil q) }

  Behind-trans :
      (q : List ℕ) (s s' : Worker Waitable R) → Behind q s → Behind s.queue s' → Behind q s'
  Behind-trans q s s' a b = record {
    more = a.more ++ b.more;
    is = b.is ∙ ap (λ l. l ++ b.more) a.is ∙ append_assoc q a.more b.more;
  }

  wake_task-Behind :
      (q : List ℕ) (id : ℕ) (s : Worker Waitable R)
      → Behind q s
      → Leaves (Unit {0}) (λ _ s'. Behind q s') (wake_task id s)
  unfolding wake_task
  wake_task-Behind q id s b = elim (Bool-cases (ltb (length s.queue) max_tasks)) [
    | inl e ↦
        rw (e, wake_task)
          (Leaves-done _ _ _ _ (Behind-trans q s _ b (record { more = id ∷ []; is = refl })))
    | inr e ↦ rw (e, wake_task) (Leaves-panic _ _ tt)
  ]

  kept : (q : List ℕ) (s s' : Worker Waitable R) → s'.queue ≡ s.queue → Behind q s → Behind q s'
  kept q s s' e b = record { more = b.more; is = e ∙ b.is }

  poll-Behind :
      (q : List ℕ) (id : ℕ) (f : Future Waitable R) (s : Worker Waitable R)
      → Behind q s
      → Leaves (Unit {0}) (λ _ s'. Behind q s') (poll id f s)
  unfolding poll
  poll-Behind q id (output r) s b = Leaves-done _ _ _ _ b
  poll-Behind q id (yielding true f) s b = poll-Behind q id f s b
  poll-Behind q id (yielding false f) s b =
      Leaves-resume _ _ _ (wake_task id s) _ (wake_task-Behind q id s b)
        (λ u s' b'. Leaves-done _ _ _ _ b')
  poll-Behind q id (wait_on w k) s b = Leaves-done _ _ _ _ (kept q s _ refl b)
  poll-Behind q id (in_wait address k) s b = poll-Behind q id (k (get_or s.boxes address false)) s b

  settle-Behind :
      (q : List ℕ) (id : ℕ) (p : Poll R (Future Waitable R)) (s : Worker Waitable R)
      → Behind q s
      → Leaves (Unit {0}) (λ _ s'. Behind q s') (settle id p s)
  settle-Behind q id (poll_ready r) s b = Leaves-done _ _ _ _ (kept q s _ refl b)
  settle-Behind q id (pending f) s b = Leaves-done _ _ _ _ (kept q s _ refl b)

  poll_found-Behind :
      (q : List ℕ) (id : ℕ) (f : Option (Future Waitable R)) (s : Worker Waitable R)
      → Behind q s
      → Leaves (Unit {0}) (λ _ s'. Behind q s') (poll_found id f s)
  poll_found-Behind q id none s b = Leaves-done _ _ _ _ b
  poll_found-Behind q id (some f) s b =
      let s1 = record s { task_id = id } in
      Leaves-resume _ _ _ (poll id f s1) _ (poll-Behind q id f s1 (kept q s s1 refl b))
        (λ p s' b'. settle-Behind q id p s' b')

  wake_found-Behind :
      (q : List ℕ) (id : ℕ) (f : Option (Future Waitable R)) (s : Worker Waitable R)
      → Behind q s
      → Leaves (Unit {0}) (λ _ s'. Behind q s') (wake_found id f s)
  wake_found-Behind q id none s b = Leaves-done _ _ _ _ b
  wake_found-Behind q id (some f) s b = wake_task-Behind q id s b

  wake_all-Behind :
      (q ids : List ℕ) (s : Worker Waitable R)
      → Behind q s
      → Leaves (Unit {0}) (λ _ s'. Behind q s') (wake_all ids s)
  unfolding wake_all
  wake_all-Behind q [] s b = Leaves-done _ _ _ _ b
  wake_all-Behind q (id ∷ ids) s b =
      let s1 = record s { waiting = remove id s.waiting } in
      Leaves-resume _ _ _ (wake_found id (lookup id s.tasks) s1) _
        (wake_found-Behind q id (lookup id s.tasks) s1 (kept q s s1 refl b))
        (λ u s' b'. wake_all-Behind q ids s' b')

  spawn-Behind :
      (q : List ℕ) (f : Future Waitable R) (s : Worker Waitable R)
      → Behind q s
      → Leaves (Unit {0}) (λ _ s'. Behind q s') (spawn f s)
  unfolding spawn
  spawn-Behind q f s b = elim (Bool-cases (ltb (length s.spawner) max_tasks)) [
    | inl e ↦ rw (e, spawn) (Leaves-done _ _ _ _ (kept q s _ refl b))
    | inr e ↦ rw (e, spawn) (Leaves-panic _ _ tt)
  ]

  accept-Behind :
      (q : List ℕ) (task : Task Waitable R) (left : List (Task Waitable R)) (s : Worker Waitable R)
      → Behind q s
      → Leaves (Unit {0}) (λ _ s'. Behind q s') (accept task left s)
  unfolding accept
  accept-Behind q task left s b = wake_task-Behind q task.tid _ (kept q s _ refl b)

  -- A step that polls a task takes the first of the queue.
  polled-Behind :
      (x : ℕ) (q : List ℕ) (s : Worker Waitable R)
      → Behind (x ∷ q) s
      → Leaves (Unit {0}) (λ _ s'. Behind q s') (resume (pop s) run_task)
  unfolding run_task
  polled-Behind x q s b =
      let front : s.queue ≡ x ∷ (q ++ b.more) = b.is in
      subst (λ l. Leaves (Unit {0}) (λ _ s'. Behind q s') (resume (pop_from l s) run_task))
        (sym front)
        (poll_found-Behind q x (lookup x s.tasks) (record s { queue = q ++ b.more })
          (record { more = b.more; is = refl }))

  module _ (wait_one_round : Waitable → WaitStatus × Waitable) where
    wait_round-Behind :
        (q : List ℕ) (s : Worker Waitable R)
        → Behind q s
        → Leaves (Unit {0}) (λ _ s'. Behind q s') (wait_round wait_one_round s)
    unfolding wait_round
    wait_round-Behind q s b = wake_all-Behind q _ _ (kept q s _ refl b)

    -- How many tasks a sequence of steps polls.
    unfoldable pub polls : (s s' : Worker Waitable R) → Reaches wait_one_round s s' → ℕ
    polls s s' now = 0
    polls s s' (after s1 s2 r (polled s3 e)) = suc (polls s s1 r)
    polls s s' (after s1 s2 r (spawned f id s3 small e)) = polls s s1 r
    polls s s' (after s1 s2 r (accepted task left s3 e q)) = polls s s1 r
    polls s s' (after s1 s2 r (waited s3 e)) = polls s s1 r

    -- After as many polls as there are tasks before it, a task is the first of the queue.
    served :
        (s s' : Worker Waitable R) (xs ys : List ℕ) (r : Reaches wait_one_round s s')
        → s.queue ≡ xs ++ ys
        → polls s s' r ≤ length xs
        → Behind (drop (polls s s' r) xs ++ ys) s'
    unfolding polls
    served s s' xs ys now e few = same-Behind _ s (e ∙ refl)
    served s s' xs ys (after s1 s2 r (spawned f id s3 small q)) e few =
        Leaves-result _ _ _ _ _ (spawn-Behind _ f s1 (served s s1 xs ys r e few)) q
    served s s' xs ys (after s1 s2 r (accepted task left s3 e1 q)) e few =
        Leaves-result _ _ _ _ _ (accept-Behind _ task left s1 (served s s1 xs ys r e few)) q
    served s s' xs ys (after s1 s2 r (waited s3 q)) e few =
        Leaves-result _ _ _ _ _ (wait_round-Behind _ s1 (served s s1 xs ys r e few)) q
    served s s' xs ys (after s1 s2 r (polled s3 q)) e few =
        let (x, front) = drop-front xs (polls s s1 r) few in
        let here = served s s1 xs ys r e (omega (arith, few)) in
        Leaves-result _ _ _ _ _
          (polled-Behind x (drop (suc (polls s s1 r)) xs ++ ys) s1
            (subst (λ l. Behind (l ++ ys) s1) front here))
          q

  -- In every interleaving, the scheduling queue is first come, first served: with `xs` before the
  -- task `id` in the queue, after `length xs` more polls `id` is at its front, whatever was spawned
  -- and woken in between.
  pub Reaches-serves :
      (wait_one_round : Waitable → WaitStatus × Waitable) (s s' : Worker Waitable R)
      (xs ys : List ℕ) (id : ℕ) (r : Reaches wait_one_round s s')
      → s.queue ≡ xs ++ id ∷ ys
      → polls wait_one_round s s' r ≡ length xs
      → (zs : List ℕ) × (s'.queue ≡ id ∷ zs)
  Reaches-serves wait_one_round s s' xs ys id r e n =
      let b = served wait_one_round s s' xs (id ∷ ys) r e (omega (arith, n)) in
      let all : drop (polls wait_one_round s s' r) xs ≡ [] =
        ap (λ k. drop k xs) n ∙ drop-length xs in
      (ys ++ b.more, b.is ∙ ap (λ l. (l ++ id ∷ ys) ++ b.more) all)
