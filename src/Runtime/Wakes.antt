-- ===== src/Runtime/Wakes.antt =====
-- Waking the collected tasks in a round of worker.rs: what is left of the map of what is waited for.
use krcore_artifacts.Prelude.{
  ℕ, ◌∷◌, [], ◌<◌, ◌≡◌, refl, sym, ◌∙◌, ap, subst, inl, inr, ◌≢◌, Option, none, some, List, length,
  ltb, arith, Bool-cases, eq_cases,
}
use krcore_artifacts.Prelude.Maps.{
  Map, lookup, remove, count, hit, hit_self, hit_ne, lookup-remove_self, lookup-remove_ne,
}
use krcore_artifacts.Prelude.Effects.{Leaves, Leaves-done, Leaves-panic, Leaves-resume, Leaves-map}
use krcore_artifacts.Runtime.{WaitableWrapper, Future}
use krcore_artifacts.Runtime.Worker.{Worker, max_tasks, wake_task, wake_found, wake_all}

module _ {Waitable : Type 0} where
  abbrev pub removes : List ℕ → Map (WaitableWrapper Waitable) → Map (WaitableWrapper Waitable)
  removes [] m = m
  removes (id ∷ ids) m = removes ids (remove id m)

  removes-none :
      (id : ℕ) (ids : List ℕ) (m : Map (WaitableWrapper Waitable))
      → lookup id m ≡ none
      → lookup id (removes ids m) ≡ none
  removes-none id [] m h = h
  removes-none id (i ∷ ids) m h = elim (eq_cases id i) [
    | inl e ↦
        removes-none id ids (remove i m)
          (subst (λ k. lookup k (remove i m) ≡ none) (sym e) (lookup-remove_self i m))
    | inr ne ↦ removes-none id ids (remove i m) (lookup-remove_ne id i m ne ∙ h)
  ]

  pub removes-some :
      (id : ℕ) (ids : List ℕ) (m : Map (WaitableWrapper Waitable))
      → 0 < count id ids
      → lookup id (removes ids m) ≡ none
  removes-some id [] m h = absurd (omega (arith, h))
  removes-some id (i ∷ ids) m h = elim (eq_cases id i) [
    | inl e ↦
        removes-none id ids (remove i m)
          (subst (λ k. lookup k (remove i m) ≡ none) (sym e) (lookup-remove_self i m))
    | inr ne ↦ removes-some id ids (remove i m) (omega (arith, h, hit_ne id i ne))
  ]

  pub removes-other :
      (id : ℕ) (ids : List ℕ) (m : Map (WaitableWrapper Waitable))
      → count id ids ≡ 0
      → lookup id (removes ids m) ≡ lookup id m
  removes-other id [] m h = refl
  removes-other id (i ∷ ids) m h =
      let ne : id ≢ i = λ e. absurd (omega (arith, h, hit_self id, ap (hit id) e)) in
      removes-other id ids (remove i m) (omega (arith, h)) ∙ lookup-remove_ne id i m ne

module _ {Waitable R : Type 0} where
  -- What waking tasks leaves of the boxes, the tasks and the map of what is waited for.
  pub record Woke (m : Map (WaitableWrapper Waitable)) (s s' : Worker Waitable R) : Type 0 where
    pub same_boxes : s'.boxes ≡ s.boxes
    pub same_tasks : s'.tasks ≡ s.tasks
    pub left : s'.waiting ≡ m

  wake_found-Woke :
      (id : ℕ) (f : Option (Future Waitable R)) (s : Worker Waitable R)
      → Leaves (Unit {0}) (λ _ s'. Woke s.waiting s s') (wake_found id f s)
  unfolding wake_task
  wake_found-Woke id none s =
      Leaves-done _ _ _ _ (record { same_boxes = refl; same_tasks = refl; left = refl })
  wake_found-Woke id (some f) s = elim (Bool-cases (ltb (length s.queue) max_tasks)) [
    | inl e ↦
        rw (e, wake_task)
          (Leaves-done _ _ _ _ (record { same_boxes = refl; same_tasks = refl; left = refl }))
    | inr e ↦ rw (e, wake_task) (Leaves-panic _ _ tt)
  ]

  pub wake_all-Woke :
      (ids : List ℕ) (s : Worker Waitable R)
      → Leaves (Unit {0}) (λ _ s'. Woke (removes ids s.waiting) s s') (wake_all ids s)
  unfolding wake_all
  wake_all-Woke [] s =
      Leaves-done _ _ _ _ (record { same_boxes = refl; same_tasks = refl; left = refl })
  wake_all-Woke (id ∷ ids) s =
      let s1 = record s { waiting = remove id s.waiting } in
      Leaves-resume _ _ _ (wake_found id (lookup id s.tasks) s1) _
        (wake_found-Woke id (lookup id s.tasks) s1)
        (λ u s2 w.
          Leaves-map _ _ _ _ _ (λ c. c)
            (λ u3 s3 w3. record {
              same_boxes = w3.same_boxes ∙ w.same_boxes;
              same_tasks = w3.same_tasks ∙ w.same_tasks;
              left = w3.left ∙ ap (removes ids) w.left;
            })
            (wake_all-Woke ids s2))
