-- ===== src/Runtime/Group.antt =====
-- KRdmaKit/src/runtime/worker_group.rs, and `start` and `wait_stop` of worker.rs.
use mathlib.Core.Option
use krcore_artifacts.Prelude.{
  [], ℕ, ◌∷◌, ◌++◌, Bool, true, false, Option, none, some, List, Outcome, done, panic, ◌>>=◌,
  get_elem?, set, if◌then◌else◌, ◌&&◌,
}
use krcore_artifacts.Prelude.Effects.{Eff}
use krcore_artifacts.Runtime.{Future}
use krcore_artifacts.Runtime.Worker.{Worker, new_worker, spawn}

pub data GroupResult (A : Type 0) : Type 0 where
  ok : A → GroupResult A
  out_of_bound : GroupResult A

-- `WorkerGroup`, with `RUNNING`, which all groups of the process share.
pub record WorkerGroup (Waitable R : Type 0) : Type 0 where
  pub running : Bool
  pub worker : List (Worker Waitable R)

module _ {Waitable R : Type 0} where
  abbrev pub with_thread : Bool → Worker Waitable R → Worker Waitable R
  with_thread running w = record w {
    join_handle = true;
    in_loop = running;
    queue = [];
    tasks = [];
    waiting = [];
    task_id = 0;
  }

  abbrev pub without_thread : Worker Waitable R → Worker Waitable R
  without_thread w = record w {
    join_handle = false;
    in_loop = false;
    queue = [];
    tasks = [];
    waiting = [];
  }

  -- `Worker::start`, of a thread that finds `RUNNING` to be as it is now: a new thread, with its own
  -- locals, which ends at once if `RUNNING` is not set.
  unfoldable pub start_worker : Bool → Worker Waitable R → Outcome (Worker Waitable R)
  start_worker running w = if w.join_handle then panic else done (with_thread running w)

  -- `Worker::wait_stop`, with `none` if it never returns: the join of a thread that runs its main loop
  -- returns only if that sees that `RUNNING` is not set. Then the thread's locals are dropped.
  unfoldable pub wait_stop : Bool → Worker Waitable R → Outcome (Option (Worker Waitable R))
  wait_stop running w =
      if w.join_handle
      then done (if running && w.in_loop then none else some (without_thread w))
      else panic

  abbrev pub for_each :
      (Worker Waitable R → Outcome (Worker Waitable R))
      → List (Worker Waitable R)
      → Outcome (List (Worker Waitable R))
  for_each f [] = done []
  for_each f (w ∷ ws) = do w' ← f w; ws' ← for_each f ws; done (w' ∷ ws')

  -- The loop of `stop`: where one join does not return, the rest is not reached.
  abbrev pub then_wait :
      Outcome (Option (List (Worker Waitable R)))
      → Option (Worker Waitable R)
      → Outcome (Option (List (Worker Waitable R)))
  then_wait rest none = done none
  then_wait rest (some w) = do o ← rest; done (Option.map (λ ws. w ∷ ws) o)

  abbrev pub wait_all :
      Bool → List (Worker Waitable R) → Outcome (Option (List (Worker Waitable R)))
  wait_all running [] = done (some [])
  wait_all running (w ∷ ws) = wait_stop running w >>= then_wait (wait_all running ws)

  abbrev pub set_running : Bool → WorkerGroup Waitable R → WorkerGroup Waitable R
  set_running running g = record g { running = running }

  abbrev pub start_all : WorkerGroup Waitable R → Outcome (WorkerGroup Waitable R)
  start_all g = do ws ← for_each (start_worker g.running) g.worker; done (record g { worker = ws })

  abbrev pub stop_all : WorkerGroup Waitable R → Outcome (Option (WorkerGroup Waitable R))
  stop_all g = do
    o ← wait_all g.running g.worker
    done (Option.map (λ ws. record g { worker = ws }) o)

  unfoldable pub start : WorkerGroup Waitable R → Outcome (WorkerGroup Waitable R)
  start g = start_all (set_running true g)

  -- `none` if it never returns.
  unfoldable pub stop : WorkerGroup Waitable R → Outcome (Option (WorkerGroup Waitable R))
  stop g = stop_all (set_running false g)

  unfoldable pub add_worker : ℕ → WorkerGroup Waitable R → Outcome (WorkerGroup Waitable R)
  add_worker n g = do
    w ← (if g.running then start_worker g.running (new_worker n) else done (new_worker n))
    done (record g { worker = g.worker ++ w ∷ [] })

  -- `spawn` on the worker `idx`, which is there.
  abbrev pub spawn_at : ℕ → Future Waitable R → Worker Waitable R → Eff (WorkerGroup Waitable R) ℕ
  spawn_at idx f w g = do (id, w') ← spawn f w; done (id, record g { worker = set g.worker idx w' })

  abbrev pub spawn_found :
      ℕ
      → Future Waitable R
      → Option (Worker Waitable R)
      → Eff (WorkerGroup Waitable R) (GroupResult ℕ)
  spawn_found idx f none g = done (out_of_bound, g)
  spawn_found idx f (some w) g = do (id, g') ← spawn_at idx f w g; done (ok id, g')

  -- `WorkerGroup::spawn`
  unfoldable pub spawn_on : ℕ → Future Waitable R → Eff (WorkerGroup Waitable R) (GroupResult ℕ)
  spawn_on idx f g = spawn_found idx f (get_elem? g.worker idx) g

  abbrev pub expect_found :
      ℕ → Future Waitable R → Option (Worker Waitable R) → Eff (WorkerGroup Waitable R) ℕ
  expect_found idx f none g = panic
  expect_found idx f (some w) g = spawn_at idx f w g

  unfoldable pub spawn_unchecked : ℕ → Future Waitable R → Eff (WorkerGroup Waitable R) ℕ
  spawn_unchecked idx f g = expect_found idx f (get_elem? g.worker idx) g
