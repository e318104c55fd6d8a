-- ===== src/Worker/Shutdown.antt =====
-- relayq/worker/shutdown.py. The tasks and `asyncio.wait` are a parameter; a task is a number.
pub mod Drain
use relayq.Prelude.{ℕ, Bool, true, false, Option, none, some, List, [], ◌∷◌, if◌then◌else◌}
use relayq.Effect.Action.{Action, ◌>>=◌, ◌>>◌, skip}

-- What the code calls of asyncio, over a type of states of the event loop.
pub record EventLoop (S : Type 0) : Type 0 where
  -- `asyncio.wait(tasks, timeout=…)`: the tasks that are done, and those that are not
  pub wait : List ℕ → ℕ → Action S (List ℕ × List ℕ)
  -- `task.cancel()`
  pub cancel : ℕ → S → S

pub record GracefulShutdown : Type 0 where
  pub event : Bool
  pub drain_timeout : ℕ

abbrev pub new_shutdown : ℕ → GracefulShutdown
new_shutdown drain_timeout = record { event = false; drain_timeout = drain_timeout }

unfoldable pub is_set : GracefulShutdown → Bool
is_set self = self.event

unfoldable pub request : GracefulShutdown → GracefulShutdown
request self = record self { event = true }

module _ {S : Type 0} (loop : EventLoop S) (self : GracefulShutdown) where
  -- The loop `for task in pending`.
  unfoldable pub cancel_all : List ℕ → S → S
  cancel_all [] s = s
  cancel_all (task ∷ pending) s = cancel_all pending (loop.cancel task s)

  unfoldable pub cancel_pending : List ℕ → Action S (Unit {0})
  unfolding cancel_all
  cancel_pending [] s = skip s
  cancel_pending (task ∷ pending) s =
      (loop.wait (task ∷ pending) 5 >> skip) (cancel_all (task ∷ pending) s)

  unfoldable pub drain : List ℕ → Action S (Unit {0})
  unfolding cancel_pending
  drain [] = skip
  drain (task ∷ inflight) = do
    (done, pending) ← loop.wait (task ∷ inflight) self.drain_timeout
    cancel_pending pending
