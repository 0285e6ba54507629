-- ===== src/Runtime.antt =====
-- KRdmaKit/src/runtime: a worker thread that runs asynchronous tasks. A task is a future, which is
-- polled until it is ready; between two polls its id is in the scheduling queue, or the task waits
-- for an object that the worker asks in every round. `Waitable` is the type of these objects and `R`
-- the type of a task's result.
pub mod Worker
pub mod Tracking
pub mod Rounds
pub mod Reach
pub mod Loop
pub mod Boxes
pub mod Separate
pub mod Asked
pub mod Wakes
pub mod Answers
pub mod Order
pub mod Group
pub mod Lifetime
mod Tests
use krcore_artifacts.Prelude.{ℕ, Bool, true, false}

pub data WaitStatus : Type 0 where
  ready waiting error : WaitStatus

abbrev pub is_ready : WaitStatus → Bool
is_ready ready = true
is_ready _ = false

abbrev pub is_error : WaitStatus → Bool
is_error error = true
is_error _ = false

-- `Poll`
pub data Poll (A F : Type 0) : Type 0 where
  poll_ready : A → Poll A F
  pending : F → Poll A F

-- A task's `async` block, as far as it has run: what is left of it are the calls of `yield_now` and
-- `wait_on` up to its result. `yielding` is stopped in `Yield { flag }`, and `in_wait` in a `wait_on`
-- whose `Wait { flag }` has been polled once, by the call itself, so that its flag is true; the
-- answer is written to the box at `address`.
pub data Future (Waitable R : Type 0) : Type 0 where
  output : R → Future Waitable R
  yielding : (flag : Bool) → Future Waitable R → Future Waitable R
  wait_on : Waitable → (Bool → Future Waitable R) → Future Waitable R
  in_wait : (address : ℕ) → (Bool → Future Waitable R) → Future Waitable R

-- `flag` is an address.
pub record WaitableWrapper (Waitable : Type 0) : Type 0 where
  pub inner : Waitable
  pub flag : ℕ

pub record Task (Waitable R : Type 0) : Type 0 where
  pub future : Future Waitable R
  pub tid : ℕ
