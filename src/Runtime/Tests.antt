-- ===== src/Runtime/Tests.antt =====
-- A worker of worker.rs with a task that yields and one that waits, a group of two workers, and the
-- theorems on both applied there. What is waited for is ready after a number of rounds.
use krcore_artifacts.Prelude.{
  [], ℕ, zero, suc, ◌∷◌, ◌≡◌, refl, true, false, Bool, List, done, arith,
}
use krcore_artifacts.Runtime.{WaitStatus, Future, output, yielding, wait_on}
use krcore_artifacts.Runtime.Worker.{
  Worker, new_worker, spawn, wake_task, poll, accept, accept_all, find_task, run_task, poll_next,
  poll_many, ask, wake_all, wait_round, round, rounds,
}
use krcore_artifacts.Runtime.Tracking.{Tracked}
use krcore_artifacts.Runtime.Reach.{Reaches, now, after, spawned, accepted, polled, Reaches-Tracked}
use krcore_artifacts.Runtime.Loop.{rounds-Tracked_returns}
use krcore_artifacts.Runtime.Answers.{Answered, wait_round-Answered}
use krcore_artifacts.Runtime.Order.{polls, Reaches-serves}
use krcore_artifacts.Runtime.Group.{WorkerGroup, spawn_on, out_of_bound}
use krcore_artifacts.Runtime.Lifetime.{Cycle, start-stop_Cycle}

abbrev countdown : ℕ → WaitStatus × ℕ
countdown zero = (WaitStatus.ready, 0)
countdown (suc n) = (WaitStatus.waiting, n)

abbrev fresh : Worker ℕ ℕ
fresh = new_worker 2

-- A task that yields once, and one that waits.
abbrev yields : Future ℕ ℕ
yields = yielding false (output 7)

abbrev waits : Future ℕ ℕ
waits = wait_on 1 (λ b. elim b [ true ↦ output 1 | false ↦ output 0 ])

abbrev one : Worker ℕ ℕ
one = record fresh { spawner = record { future = yields; tid = 0 } ∷ []; task_id_gen = 1 }

abbrev two : Worker ℕ ℕ
two = record fresh {
  spawner = record { future = yields; tid = 0 } ∷ record { future = waits; tid = 1 } ∷ [];
  task_id_gen = 2;
}

two_spawned : Reaches countdown fresh two
unfolding spawn
two_spawned =
    after one two (after fresh one now (spawned yields 0 one (omega arith) refl))
      (spawned waits 1 two (omega arith) refl)

Reaches-Tracked_example : Tracked 2 [] two
Reaches-Tracked_example = Reaches-Tracked countdown 2 two two_spawned

rounds-Tracked_returns_example :
    (s' : Worker ℕ ℕ) × (rounds countdown 5 two ≡ done (tt, s')) × Tracked 2 [] s'
rounds-Tracked_returns_example =
    rounds-Tracked_returns countdown 2 5 two (omega arith) Reaches-Tracked_example

-- After the first round: one task yielded, and the other one waits for one round more.
abbrev first : Worker ℕ ℕ
first = record fresh {
  task_id_gen = 2;
  queue = 0 ∷ [];
  tasks =
      (0, yielding true (output 7))
      ∷ (1, Future.in_wait 0 (λ b. elim b [ true ↦ output 1 | false ↦ output 0 ]))
      ∷ [];
  waiting = (1, record { inner = 0; flag = 0 }) ∷ [];
  task_id = 1;
  boxes = false ∷ [];
}

first_round : rounds countdown 1 two ≡ done (tt, first)
unfolding rounds round poll_many poll_next find_task accept_all accept wake_task run_task poll
    wait_round ask wake_all
first_round = refl

-- Both tasks have sent their results.
abbrev last : Worker ℕ ℕ
last = record fresh { task_id_gen = 2; task_id = 1; boxes = true ∷ []; sent = (1, 1) ∷ (0, 7) ∷ [] }

three_rounds : rounds countdown 3 two ≡ done (tt, last)
unfolding rounds round poll_many poll_next find_task accept_all accept wake_task run_task poll
    wait_round ask wake_all
three_rounds = refl

-- The queue with the yielding task before another one.
abbrev line : Worker ℕ ℕ
line = record fresh {
  task_id_gen = 2;
  queue = 0 ∷ 1 ∷ [];
  tasks = (0, yields) ∷ (1, output 5) ∷ [];
}

abbrev line_polled : Worker ℕ ℕ
line_polled = record line {
  queue = 1 ∷ 0 ∷ [];
  tasks = (0, yielding true (output 7)) ∷ (1, output 5) ∷ [];
}

line_poll : Reaches countdown line line_polled
unfolding run_task poll wake_task
line_poll = after line line_polled now (polled line_polled refl)

Reaches-serves_example : (zs : List ℕ) × (line_polled.queue ≡ 1 ∷ zs)
unfolding polls line_poll
Reaches-serves_example = Reaches-serves countdown line line_polled (0 ∷ []) [] 1 line_poll refl refl

abbrev pair : WorkerGroup ℕ ℕ
pair = record { running = false; worker = fresh ∷ two ∷ [] }

start-stop_Cycle_example : Cycle pair
start-stop_Cycle_example = start-stop_Cycle pair refl (refl, refl, (refl, refl, tt))

-- A group of which none is started, while another group runs.
abbrev other : WorkerGroup ℕ ℕ
other = record { running = true; worker = [] }

no_such_worker : spawn_on 2 yields pair ≡ done (out_of_bound, pair)
unfolding spawn_on
no_such_worker = refl

-- A worker whose only task waits, step by step.
abbrev waiter : Worker ℕ ℕ
waiter = record fresh { spawner = record { future = waits; tid = 0 } ∷ []; task_id_gen = 1 }

abbrev waiter_queued : Worker ℕ ℕ
waiter_queued = record fresh { task_id_gen = 1; queue = 0 ∷ []; tasks = (0, waits) ∷ [] }

abbrev waiter_waits : ℕ → List ℕ → List Bool → Worker ℕ ℕ
waiter_waits rounds_left queue boxes = record fresh {
  task_id_gen = 1;
  queue = queue;
  tasks = (0, Future.in_wait 0 (λ b. elim b [ true ↦ output 1 | false ↦ output 0 ])) ∷ [];
  waiting = (0, record { inner = rounds_left; flag = 0 }) ∷ [];
  boxes = boxes;
}

waiter_reached : Reaches countdown fresh (waiter_waits 1 [] (false ∷ []))
unfolding spawn accept wake_task run_task poll
waiter_reached =
    after waiter_queued (waiter_waits 1 [] (false ∷ []))
      (after waiter waiter_queued
        (after fresh waiter now (spawned waits 0 waiter (omega arith) refl))
        (accepted (record { future = waits; tid = 0 }) [] waiter_queued refl refl))
      (polled (waiter_waits 1 [] (false ∷ [])) refl)

waiter_round :
    wait_round countdown (waiter_waits 1 [] (false ∷ []))
    ≡ done (tt, waiter_waits 0 [] (false ∷ []))
unfolding wait_round ask wake_all
waiter_round = refl

wait_round-Answered_example :
    Answered countdown
      (waiter_waits 1 [] (false ∷ []))
      (waiter_waits 0 [] (false ∷ []))
      0
      (record { inner = 1; flag = 0 })
wait_round-Answered_example =
    wait_round-Answered countdown 2 (waiter_waits 1 [] (false ∷ []))
      (waiter_waits 0 [] (false ∷ [])) 0 (record { inner = 1; flag = 0 }) waiter_reached refl
      waiter_round
