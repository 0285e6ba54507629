-- ===== src/Runtime/Loop.antt =====
-- The main loop of worker.rs: it runs on where at most 1024 tasks are live.
use krcore_artifacts.Prelude.{[], ℕ, ◌≤◌, ◌≡◌, done, arith}
use krcore_artifacts.Prelude.Effects.{Leaves-returns}
use krcore_artifacts.Runtime.{WaitStatus}
use krcore_artifacts.Runtime.Worker.{Worker, max_tasks, rounds}
use krcore_artifacts.Runtime.Tracking.{Tracked}
use krcore_artifacts.Runtime.Rounds.{rounds-Tracked}

module _ {Waitable R : Type 0} (wait_one_round : Waitable → WaitStatus × Waitable) where
  -- From a state where no task is lost or duplicated and at most 1024 are live, and if no other thread
  -- spawns a task meanwhile: any number of rounds of the main loop returns, without a panic of a full queue. It leaves such a state, in which at
  -- most as many tasks are live.
  pub rounds-Tracked_returns :
      (n m : ℕ) (s : Worker Waitable R)
      → n ≤ max_tasks
      → Tracked n [] s
      → (s' : Worker Waitable R) × (rounds wait_one_round m s ≡ done (tt, s')) × Tracked n [] s'
  rounds-Tracked_returns n m s few h =
      let (u, s', e, h') =
        Leaves-returns _ _ (rounds wait_one_round m s) (λ c. omega (arith, c, few))
          (rounds-Tracked wait_one_round n m s h) in
      (s', e, h')
