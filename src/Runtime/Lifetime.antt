-- ===== src/Runtime/Lifetime.antt =====
-- worker_group.rs: when the workers of a group have threads, and what misuse panics.
use krcore_artifacts.Prelude.{
  [], ℕ, suc, ◌∷◌, ◌++◌, ◌≡◌, refl, sym, ◌∙◌, ap, subst, inl, inr, Bool, true, false, Option, none,
  some, List, Outcome, done, panic, ◌>>=◌, get_elem?, Bool-cases, length,
}
use krcore_artifacts.Runtime.{Future}
use krcore_artifacts.Runtime.Worker.{Worker, new_worker}
use krcore_artifacts.Runtime.Group.{
  WorkerGroup, GroupResult, ok, out_of_bound, start_worker, wait_stop, with_thread, without_thread,
  for_each, wait_all, start, stop, add_worker, spawn_at, spawn_found, expect_found, spawn_on,
  spawn_unchecked,
}

module _ {Waitable R : Type 0} where
  -- All workers have a thread that runs the main loop, or none has a thread.
  abbrev pub All : Bool → List (Worker Waitable R) → Type 0
  All b [] = Unit {0}
  All b (w ∷ ws) = (w.join_handle ≡ b) × (w.in_loop ≡ b) × All b ws

  -- A worker of the group has a thread exactly when `RUNNING` is set.
  abbrev pub IsConsistent : WorkerGroup Waitable R → Type 0
  IsConsistent g = All g.running g.worker

  -- The command returns, and then its result has the property.
  abbrev pub Gives : (WorkerGroup Waitable R → Type 0) → Outcome (WorkerGroup Waitable R) → Type 0
  Gives P x = (g : WorkerGroup Waitable R) × (x ≡ done g) × P g

  started :
      (ws : List (Worker Waitable R))
      → All false ws
      → (ws' : List (Worker Waitable R)) × (for_each (start_worker true) ws ≡ done ws')
        × All true ws'
        × (length ws' ≡ length ws)
  unfolding start_worker
  started [] a = ([], refl, tt, refl)
  started (w ∷ ws) (e, l, a) =
      let (ws', q, a', n) = started ws a in
      (with_thread true w ∷ ws', rw (e, q, start_worker), (refl, refl, a'), ap suc n)

  stopped :
      (ws : List (Worker Waitable R))
      → All true ws
      → (ws' : List (Worker Waitable R)) × (wait_all false ws ≡ done (some ws'))
        × All false ws'
        × (length ws' ≡ length ws)
  unfolding wait_stop
  stopped [] a = ([], refl, tt, refl)
  stopped (w ∷ ws) (e, l, a) =
      let (ws', q, a', n) = stopped ws a in
      (without_thread w ∷ ws', rw (e, q, wait_stop), (refl, refl, a'), ap suc n)

  -- What starting a group and stopping it again leaves.
  pub record Cycle (g : WorkerGroup Waitable R) : Type 0 where
    pub up : WorkerGroup Waitable R
    pub down : WorkerGroup Waitable R
    pub starts : start g ≡ done up
    pub runs : up.running ≡ true
    pub up_consistent : IsConsistent up
    pub stops : stop up ≡ done (some down)
    pub rests : down.running ≡ false
    pub down_consistent : IsConsistent down
    pub same_workers : length down.worker ≡ length g.worker

  -- A group that is not running and whose workers have no threads can be started and then stopped
  -- without a panic, and both calls return: each thread that `stop` joins sees that `RUNNING` is not
  -- set. In between every worker has a thread, which runs the main loop, and after it none has one, so
  -- that the same can be done again.
  pub start-stop_Cycle : (g : WorkerGroup Waitable R) → g.running ≡ false → IsConsistent g → Cycle g
  unfolding start stop
  start-stop_Cycle g e c =
      let (ws1, q1, a1, n1) = started g.worker (subst (λ b. All b g.worker) e c) in
      let (ws2, q2, a2, n2) = stopped ws1 a1 in
      record {
        up = record { running = true; worker = ws1 };
        down = record { running = false; worker = ws2 };
        starts = rw (q1, start) refl;
        runs = refl;
        up_consistent = a1;
        stops = rw (q2, stop) refl;
        rests = refl;
        down_consistent = a2;
        same_workers = n2 ∙ n1;
      }

  All-append :
      (b : Bool) (ws : List (Worker Waitable R)) (w : Worker Waitable R)
      → All b ws
      → w.join_handle ≡ b
      → w.in_loop ≡ b
      → All b (ws ++ w ∷ [])
  All-append b [] w a e l = (e, l, tt)
  All-append b (x ∷ ws) w (e', l', a) e l = (e', l', All-append b ws w a e l)

  -- A worker that is added to a group has a thread exactly when the others have: the call returns,
  -- and the group stays consistent, with `RUNNING` as it was.
  pub add_worker-IsConsistent :
      (n : ℕ) (g : WorkerGroup Waitable R)
      → IsConsistent g
      → (g' : WorkerGroup Waitable R) × (add_worker n g ≡ done g')
        × IsConsistent g'
        × (g'.running ≡ g.running)
  unfolding add_worker start_worker
  add_worker-IsConsistent n g c = elim (Bool-cases g.running) [
    | inl e ↦ (
      record g { worker = g.worker ++ with_thread true (new_worker n) ∷ [] },
      rw (e, add_worker, start_worker) refl,
      All-append g.running g.worker (with_thread true (new_worker n)) c (sym e) (sym e),
      refl,
    )
    | inr e ↦ (
      record g { worker = g.worker ++ new_worker n ∷ [] },
      rw (e, add_worker) refl,
      All-append g.running g.worker (new_worker n) c (sym e) (sym e),
      refl,
    )
  ]

  for_each-panic :
      (f : Worker Waitable R → Outcome (Worker Waitable R)) (ws : List (Worker Waitable R))
      (w : Worker Waitable R)
      → f w ≡ panic
      → for_each f (ws ++ w ∷ []) ≡ panic
  for_each-panic f [] w e = rw e refl
  for_each-panic f (x ∷ ws) w e = go (f x) (for_each-panic f ws w e)
    where
      go :
          (o : Outcome (Worker Waitable R))
          → for_each f (ws ++ w ∷ []) ≡ panic
          → (o >>= λ w'. for_each f (ws ++ w ∷ []) >>= λ ws'. done (w' ∷ ws')) ≡ panic
      go panic q = refl
      go (done a) q = rw q refl

  -- If `RUNNING` is set when a worker is added, by this group or by another one of the process, then
  -- starting the group panics.
  pub add_worker-start_panic :
      (n : ℕ) (g : WorkerGroup Waitable R) → g.running ≡ true → (add_worker n g >>= start) ≡ panic
  unfolding add_worker start start_worker
  add_worker-start_panic n g e =
      let bad =
        for_each-panic (start_worker true) g.worker (with_thread true (new_worker n)) refl in
      rw (e, bad, add_worker, start_worker, start) refl

  -- What `spawn` answers in place of what `spawn_unchecked` does.
  abbrev pub checked : GroupResult ℕ × WorkerGroup Waitable R → Outcome (ℕ × WorkerGroup Waitable R)
  checked (ok id, g) = done (id, g)
  checked (out_of_bound, g) = panic

  -- `spawn_unchecked` is `spawn` with a panic in place of the error, on every group, index and task.
  pub spawn_unchecked-spawn_on :
      (idx : ℕ) (f : Future Waitable R) (g : WorkerGroup Waitable R)
      → spawn_unchecked idx f g ≡ (spawn_on idx f g >>= checked)
  unfolding spawn_unchecked spawn_on
  spawn_unchecked-spawn_on idx f g = go (get_elem? g.worker idx)
    where
      found :
          (w : Worker Waitable R) (o : Outcome (ℕ × WorkerGroup Waitable R))
          → o ≡ ((o >>= λ (id, g'). done (ok id, g')) >>= checked)
      found w panic = refl
      found w (done (id, g')) = refl

      go :
          (w : Option (Worker Waitable R))
          → expect_found idx f w g ≡ (spawn_found idx f w g >>= checked)
      go none = refl
      go (some w) = found w (spawn_at idx f w g)
