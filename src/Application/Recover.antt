-- ===== src/Application/Recover.antt =====
-- relayq/application/recover.py. The loop logs what it claims and keeps none of it.
pub mod Round
use relayq.Prelude.{ℕ, String, Bool, true, false, if◌then◌else◌, List, [], ◌∷◌}
use relayq.Effect.Action.{Action, ◌>>=◌, ◌>>◌, raise, skip, try_except}
use relayq.Effect.{cancelled_error}
use relayq.Domain.Job.{DateTime}
use relayq.Infrastructure.RedisStream.{Transport, autoclaim_stale}

pub record RecoveryWorker (R : Type 0) : Type 0 where
  pub transport : Transport R
  pub worker_id : String
  pub min_idle_ms : ℕ
  pub claim_batch : ℕ

-- `stop`, on the flag `_running`
unfoldable pub stop : Bool → Bool
stop running = false

module _ {R : Type 0} (self : RecoveryWorker R) (now : DateTime) where
  open self use {transport, worker_id, min_idle_ms, claim_batch}

  -- `_claim_stale`: the claimed jobs are only logged.
  unfoldable pub claim_stale : String → Action R (Unit {0})
  claim_stale queue = do
    claimed ← autoclaim_stale transport now queue worker_id min_idle_ms claim_batch
    skip

  -- One round of `recover_loop`: an exception of one queue is logged, and the next queue is tried.
  unfoldable pub recover_round : List String → Action R (Unit {0})
  recover_round [] = skip
  recover_round (queue ∷ queues) = do
    try_except (claim_stale queue) (λ _. skip)
    recover_round queues

  -- `while self._running`: a round, then a look at the flag. The list says of each round whether `stop` is
  -- called before its sleep has ended; where the list ends, the task is cancelled in the sleep (or before the
  -- first round), and `CancelledError` leaves the loop.
  unfoldable pub loop_while : Bool → List Bool → List String → Action R (Unit {0})
  unfolding stop
  loop_while false stops queues = skip
  loop_while true [] queues = raise cancelled_error
  loop_while true (stopped ∷ later) queues = do
    recover_round queues
    loop_while (if stopped then stop true else true) later queues

  -- The flag is set first, also where `stop` was called before.
  unfoldable pub recover_loop : List Bool → List String → Action R (Unit {0})
  unfolding loop_while
  recover_loop stops queues = loop_while true stops queues
