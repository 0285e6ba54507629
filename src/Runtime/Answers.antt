-- ===== src/Runtime/Answers.antt =====
-- What a round of a worker's thread of worker.rs makes of the answer of a waitable.
use krcore_artifacts.Prelude.{ℕ, [], ◌≡◌, ◌∙◌, ap, false, some, List, done, get_or, arith}
use krcore_artifacts.Prelude.Maps.{Map, lookup, keys, count, count-of_lookup, count-of_none}
use krcore_artifacts.Prelude.Effects.{Leaves-result}
use krcore_artifacts.Runtime.{WaitStatus, WaitableWrapper}
use krcore_artifacts.Runtime.Worker.{Worker, new_worker, ask, wait_round}
use krcore_artifacts.Runtime.Tracking.{Tracked, live, given_le}
use krcore_artifacts.Runtime.Reach.{Reaches, after, waited, Reaches-Tracked}
use krcore_artifacts.Runtime.Separate.{Reaches-IsApart}
use krcore_artifacts.Runtime.Asked.{answer_in, left_waiting, taken, ask-Asked}
use krcore_artifacts.Runtime.Wakes.{removes, removes-some, removes-other, Woke, wake_all-Woke}

module _ {Waitable : Type 0} where
  waits-after :
      (status : WaitStatus) (id : ℕ) (ids : List ℕ) (m : Map (WaitableWrapper Waitable))
      (w : WaitableWrapper Waitable)
      → count id ids ≡ taken status
      → lookup id m ≡ some w
      → lookup id (removes ids m) ≡ left_waiting status w
  waits-after WaitStatus.ready id ids m w n found = removes-some id ids m (omega (arith, n))
  waits-after WaitStatus.error id ids m w n found = removes-some id ids m (omega (arith, n))
  waits-after WaitStatus.waiting id ids m w n found = removes-other id ids m n ∙ found

module _ {Waitable R : Type 0} (wait_one_round : Waitable → WaitStatus × Waitable) where
  -- What becomes of the task `id` that waits with `w`, when the waitable gives its next answer.
  pub record Answered (s s' : Worker Waitable R) (id : ℕ) (w : WaitableWrapper Waitable)
      : Type 0 where
    pub box :
        get_or s'.boxes w.flag false
        ≡ answer_in (wait_one_round w.inner).0 (get_or s.boxes w.flag false)
    pub waits :
        lookup id s'.waiting
        ≡ left_waiting (wait_one_round w.inner).0 (record w { inner = (wait_one_round w.inner).1 })
    pub queued : count id s'.queue ≡ taken (wait_one_round w.inner).0

  queued-after :
      (status : WaitStatus) (id : ℕ) (s' : Worker Waitable R) (w : WaitableWrapper Waitable)
      → Tracked (live s') [] s'
      → count id (keys s'.tasks) ≡ 1
      → lookup id s'.waiting ≡ left_waiting status w
      → count id s'.queue ≡ taken status
  queued-after WaitStatus.ready id s' w t one at =
      omega (arith, t.placed id, one, count-of_none id s'.waiting at)
  queued-after WaitStatus.error id s' w t one at =
      omega (arith, t.placed id, one, count-of_none id s'.waiting at)
  queued-after WaitStatus.waiting id s' w t one at =
      omega (arith, t.placed id, one, count-of_lookup id w s'.waiting at)

  wait_round-Woke :
      (s s' : Worker Waitable R)
      → wait_round wait_one_round s ≡ done (tt, s')
      → let (ids, waiting, boxes) = ask wait_one_round s.waiting s.boxes in
        Woke (removes ids waiting) (record s { waiting = waiting; boxes = boxes }) s'
  unfolding wait_round
  wait_round-Woke s s' e = Leaves-result _ _ _ _ _ (wake_all-Woke _ _) e

  -- In every state that a new worker can reach: when a round asks what the task `id` waits for and the
  -- answer is ready or an error, then the box that the task's `wait_on` reads holds true or false, the
  -- task waits no more, and it is in the scheduling queue once. When the answer is to wait, the box is
  -- as it was, the task waits for the same object, and it is not in the queue.
  pub wait_round-Answered :
      (n : ℕ) (s s' : Worker Waitable R) (id : ℕ) (w : WaitableWrapper Waitable)
      → Reaches wait_one_round (new_worker n) s
      → lookup id s.waiting ≡ some w
      → wait_round wait_one_round s ≡ done (tt, s')
      → Answered s s' id w
  wait_round-Answered n s s' id w r found e =
      let t = Reaches-Tracked wait_one_round n s r in
      let t' = Reaches-Tracked wait_one_round n s' (after s s' r (waited s' e)) in
      let there = count-of_lookup id w s.waiting found in
      let one : count id (keys s.tasks) ≡ 1 =
        omega (arith, there, t.placed id, t.once id, given_le id s) in
      let asked =
        ask-Asked wait_one_round s.waiting s.boxes id w (Reaches-IsApart wait_one_round n s r)
          (omega (arith, one, t.placed id)) found in
      let woke = wait_round-Woke s s' e in
      let waits =
        ap (lookup id) woke.left
        ∙ waits-after (wait_one_round w.inner).0 id _ _ _ asked.collected asked.next in
      record {
        box = ap (λ b. get_or b w.flag false) woke.same_boxes ∙ asked.box;
        waits = waits;
        queued =
            queued-after (wait_one_round w.inner).0 id s' _ t'
              (ap (λ m. count id (keys m)) woke.same_tasks ∙ one) waits;
      }
