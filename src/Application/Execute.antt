-- ===== src/Application/Execute.antt =====
-- relayq/application/execute.py. The log lines are left out, and with them the retry delay, which
-- `_handle_failure` computes for its log line only.
pub mod Steps
pub mod Outcomes
pub mod Contract
use relayq.Prelude.{ℕ, ◌+◌, ◌-◌, String, true, false, Option, none, some, if◌then◌else◌}
use relayq.Effect.{Exception, Result, ok, err, is_exception, timeout_error, job_timeout}
use relayq.Effect.Action.{Action, ◌>>=◌, ◌>>◌, pure, raise, skip, try_except}
use relayq.Domain.Job.{Job, JobStatus, processing, completed, failed, dead, should_dlq}
use relayq.Infrastructure.SqliteStore.{update_status}
use relayq.Infrastructure.RedisStream.{Transport, xack, xadd_dlq}
use relayq.System.{System, on_redis, if_store, emit}
use relayq.Telemetry.{observe_processing_seconds, incr_delivery_attempts, incr_dead_letter}

-- How `async with asyncio.timeout(limit): await handler(job)` ends: with a return or an exception, which
-- is `timeout_error` where the limit was passed; the job object as the handler leaves it; and the system,
-- whose clock has moved on.
pub record Run (R : Type 0) : Type 0 where
  pub outcome : Result (Unit {0})
  pub job : Job
  pub system : System R

abbrev pub Handler : Type 0 → Type 0
Handler R = ℕ → Job → System R → Run R

pub record Executor (R : Type 0) : Type 0 where
  pub transport : Transport R
  pub job_timeout_seconds : ℕ
  -- `f"{type(exc).__name__}: {exc}"`
  pub describe : Exception → String

-- `try: self.store.update_status(…) except Exception: logger.warning(…)`, if there is a store.
unfoldable pub update_quietly :
    {R : Type 0} → String → JobStatus → Option ℕ → Action (System R) (Unit {0})
update_quietly job_id status attempt =
    try_except (if_store tt (update_status job_id status attempt)) (λ _. skip)

-- `job.attempts += 1`
abbrev pub attempted : Job → Job
attempted job = record job { attempts = job.attempts + 1 }

module _ {R : Type 0} (self : Executor R) (queue : String) (entry_id : String) where
  open self use {transport}

  -- The `try` block of the exhausted branch: DLQ first, then XACK.
  unfoldable pub dead_letter : Job → String → Action (System R) (Unit {0})
  dead_letter job reason = do
    on_redis (xadd_dlq transport queue job reason)
    on_redis (xack transport queue entry_id)
    emit (incr_dead_letter job.kind)

  -- The two branches of `_handle_failure`, on the job with its attempt counted.
  unfoldable pub route : Job → Exception → Action (System R) (Unit {0})
  unfolding should_dlq
  route job exc =
      if should_dlq job
      then (do
        try_except (dead_letter job (self.describe exc)) (λ _. skip)
        update_quietly job.id dead none)
      else update_quietly job.id failed (some job.attempts)

  unfoldable pub handle_failure : Job → Exception → Action (System R) Job
  handle_failure job exc = do
    emit (incr_delivery_attempts job.kind false)
    route (attempted job) exc
    pure (attempted job)

  -- The success path.
  unfoldable pub succeed : Job → Action (System R) Job
  succeed job = do
    try_except (on_redis (xack transport queue entry_id) >> skip) (λ _. skip)
    update_quietly job.id completed none
    emit (incr_delivery_attempts job.kind true)
    pure job

  -- The `except` clauses and the path after them; a cancellation is caught by none of them.
  unfoldable pub settle : Result (Unit {0}) → Job → ℕ → Action (System R) Job
  unfolding is_exception
  settle (ok _) job elapsed = do emit (observe_processing_seconds job.kind elapsed); succeed job
  settle (err timeout_error) job elapsed = do
    emit (observe_processing_seconds job.kind elapsed)
    handle_failure job (job_timeout job.id self.job_timeout_seconds)
  settle (err exc) job elapsed =
      if is_exception exc
      then (do emit (observe_processing_seconds job.kind elapsed); handle_failure job exc)
      else raise exc

  unfoldable pub run_handler : Handler R → Job → Action (System R) Job
  run_handler handler job s =
      let run = handler self.job_timeout_seconds job s in
      settle run.outcome run.job (run.system.monotonic - s.monotonic) run.system

  -- `execute(queue, entry_id, job, handler, worker_id)`; the result is the job object as the call leaves it.
  unfoldable pub execute : Handler R → Job → Action (System R) Job
  execute handler job = do
    update_quietly job.id processing (some job.attempts)
    run_handler handler job
