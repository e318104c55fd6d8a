-- ===== src/Application/Execute/Outcomes.antt =====
-- How `execute` (relayq/application/execute.py) ends, by the outcome of the handler.
use relayq.Prelude.{ℕ, ◌+◌, ◌-◌, ◌≤◌, ◌<◌, String, ◌≡◌, refl, ◌∙◌, true, false, none, some, ◌∷◌}
use relayq.Effect.{
  NotCancelled, Exception, Result, ok, err, cancelled_error, timeout_error, is_exception,
  job_timeout,
}
use relayq.Domain.Job.{Job, completed, failed, dead}
use relayq.Infrastructure.RedisStream.{xack, xadd_dlq}
use relayq.System.{System}
use relayq.Telemetry.{observe_processing_seconds, incr_delivery_attempts}
use relayq.Application.Execute.{Run, Handler, Executor, attempted, handle_failure, settle, execute}
use relayq.Application.Execute.Steps.{
  noted, run_of, execute-settle, succeed_lem, handle_failure_retry, handle_failure_dead, acked_if,
  buried, BurialNotCancelled,
}

-- The exception that `_handle_failure` is given: a passed limit is a `JobTimeout` of the job.
abbrev pub reported : {R : Type 0} → Executor R → Job → Exception → Exception
reported self job timeout_error = job_timeout job.id self.job_timeout_seconds
reported self job e = e

module _ {R : Type 0} (self : Executor R) (queue : String) (entry_id : String) where
  open self use {transport}

  pub settle-err :
      (e : Exception) (job : Job) (elapsed : ℕ) (s : System R)
      → is_exception e ≡ true
      → settle self queue entry_id (err e) job elapsed s
        ≡ handle_failure self queue entry_id job
            (reported self job e)
            (record s { metrics = observe_processing_seconds job.kind elapsed ∷ s.metrics })
  unfolding settle
  settle-err timeout_error job elapsed s h = refl
  settle-err cancelled_error job elapsed s h = cc
  settle-err e job elapsed s h = refl

  module _ (handler : Handler R) (job : Job) (s : System R) where
    -- What the handler leaves.
    abbrev pub ran : Run R
    ran = run_of self handler job s

    -- How the write to the DLQ ends, and the Redis after it.
    abbrev pub burial : Exception → Result String × R
    burial e =
        xadd_dlq transport queue (attempted ran.job) (self.describe (reported self ran.job e))
          ran.system.redis

    -- When the handler returns, the call returns, unless XACK is cancelled. It sends nothing to Redis
    -- but one XACK of the entry, and goes on where that raises; it asks the store to mark the job
    -- completed, and counts the delivery as successful.
    pub execute_success :
        ran.outcome ≡ ok tt
        → NotCancelled (xack transport queue entry_id ran.system.redis).0
        → execute self queue entry_id handler job s ≡ (
          ok ran.job,
          record ran.system {
            redis = (xack transport queue entry_id ran.system.redis).1;
            store = noted ran.job.id completed none ran.system.store;
            metrics =
                incr_delivery_attempts ran.job.kind true
                ∷ observe_processing_seconds ran.job.kind (ran.system.monotonic - s.monotonic)
                ∷ ran.system.metrics;
          },
        )
    unfolding settle
    execute_success returned answered =
        execute-settle self queue entry_id handler job s
        ∙ rw returned (succeed_lem self queue entry_id ran.job _ answered)

    -- When the handler raises an `Exception` and the job, as the handler leaves it, has retries left,
    -- the call returns and sends nothing to Redis: the entry is neither acknowledged nor
    -- dead-lettered. The job's attempts go up by one, which the store is asked to note with the status
    -- failed, and the delivery is counted as failed.
    pub execute_retry :
        (e : Exception)
        → ran.outcome ≡ err e
        → is_exception e ≡ true
        → ran.job.attempts < ran.job.max_retries
        → execute self queue entry_id handler job s ≡ (
          ok (attempted ran.job),
          record ran.system {
            store = noted ran.job.id failed (some (ran.job.attempts + 1)) ran.system.store;
            metrics =
                incr_delivery_attempts ran.job.kind false
                ∷ observe_processing_seconds ran.job.kind (ran.system.monotonic - s.monotonic)
                ∷ ran.system.metrics;
          },
        )
    execute_retry e raised caught room =
        execute-settle self queue entry_id handler job s
        ∙ rw raised (settle-err e ran.job _ ran.system caught)
        ∙ handle_failure_retry self queue entry_id ran.job (reported self ran.job e) _ room

    -- When the handler raises an `Exception` and the job has no retry left, the call returns, unless a
    -- command is cancelled. The job is written to the DLQ with the reason, the entry is acknowledged
    -- only if that write returned, the dead-letter counter moves only if both commands returned, and
    -- the store is asked to mark the job dead in every case.
    pub execute_dead :
        (e : Exception)
        → ran.outcome ≡ err e
        → is_exception e ≡ true
        → ran.job.max_retries ≤ ran.job.attempts
        → BurialNotCancelled self queue entry_id (burial e).0 (burial e).1
        → let (q, r) = burial e in
          execute self queue entry_id handler job s ≡ (
            ok (attempted ran.job),
            record ran.system {
              redis = acked_if self queue entry_id q r;
              store = noted ran.job.id dead none ran.system.store;
              metrics = buried self queue entry_id q r ran.job (
                  incr_delivery_attempts ran.job.kind false
                  ∷ observe_processing_seconds ran.job.kind (ran.system.monotonic - s.monotonic)
                  ∷ ran.system.metrics);
            },
          )
    execute_dead e raised caught spent answered =
        execute-settle self queue entry_id handler job s
        ∙ rw raised (settle-err e ran.job _ ran.system caught)
        ∙ handle_failure_dead self queue entry_id ran.job (reported self ran.job e) _ spent answered

    -- When the handler is cancelled, so is the call, which has then sent nothing to Redis itself and
    -- changed nothing but the store's note that the job was being processed.
    execute_cancelled :
        ran.outcome ≡ err cancelled_error
        → execute self queue entry_id handler job s ≡ (err cancelled_error, ran.system)
    unfolding settle
    execute_cancelled raised = execute-settle self queue entry_id handler job s ∙ rw raised
