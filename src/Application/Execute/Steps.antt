-- ===== src/Application/Execute/Steps.antt =====
-- The steps of `execute` (relayq/application/execute.py), each as one equation between states.
use relayq.Prelude.{
  ℕ, ◌+◌, ◌-◌, ◌≤◌, ◌<◌, String, ◌≡◌, inl, inr, true, false, Option, none, some, List, ◌∷◌, arith,
}
use relayq.Effect.{NotCancelled, Result-cases, Exception, Result, ok, err, is_exception}
use relayq.Effect.Action.{try_except}
use relayq.Domain.Job.{Job, JobStatus, processing, completed, failed, dead}
use relayq.Infrastructure.SqliteStore.{Db, update_status}
use relayq.Infrastructure.RedisStream.{xack, xadd_dlq}
use relayq.System.{System}
use relayq.Telemetry.{MetricCall, incr_delivery_attempts, incr_dead_letter}
use relayq.Application.Execute.{
  Run, Handler, Executor, update_quietly, attempted, dead_letter, route, handle_failure, succeed,
  settle, run_handler, execute,
}

-- The store after an `update_status`, whether that returned or raised.
abbrev pub noted : String → JobStatus → Option ℕ → Option Db → Option Db
noted id st n none = none
noted id st n (some db) = some (update_status id st n db).1

-- A status update whose exceptions are caught always returns, and touches the store only.
pub update_quietly_lem :
    {R : Type 0} (id : String) (st : JobStatus) (n : Option ℕ) (s : System R)
    → update_quietly id st n s ≡ (ok tt, record s { store = noted id st n s.store })
unfolding update_quietly try_except update_status
update_quietly_lem id st n s = ground arith

-- The state in which the handler starts, and what it does.
abbrev pub started : {R : Type 0} → Job → System R → System R
started job s = record s { store = noted job.id processing (some job.attempts) s.store }

abbrev pub run_of : {R : Type 0} → Executor R → Handler R → Job → System R → Run R
run_of self handler job s = handler self.job_timeout_seconds job (started job s)

module _ {R : Type 0} (self : Executor R) (queue : String) (entry_id : String) where
  open self use {transport}

  pub execute-settle :
      (handler : Handler R) (job : Job) (s : System R)
      → let run = run_of self handler job s in
        execute self queue entry_id handler job s
        ≡ settle self queue entry_id run.outcome run.job
            (run.system.monotonic - s.monotonic)
            run.system
  unfolding execute run_handler
  execute-settle handler job s =
      rw (update_quietly_lem job.id processing (some job.attempts) s, execute)

  pub succeed_lem :
      (job : Job) (s : System R)
      → NotCancelled (xack transport queue entry_id s.redis).0
      → succeed self queue entry_id job s ≡ (
        ok job,
        record s {
          redis = (xack transport queue entry_id s.redis).1;
          store = noted job.id completed none s.store;
          metrics = incr_delivery_attempts job.kind true ∷ s.metrics;
        },
      )
  unfolding succeed try_except
  succeed_lem job s answered =
      let acked = record s { redis = (xack transport queue entry_id s.redis).1 } in
      let noted_completed = update_quietly_lem job.id completed none acked in
      elim (Result-cases (xack transport queue entry_id s.redis).0) [
        | inl (n, e) ↦ ground arith
        | inr (x, e) ↦ ground arith
      ]

  -- With retries left nothing is sent to Redis: the entry stays pending.
  pub handle_failure_retry :
      (job : Job) (exc : Exception) (s : System R)
      → job.attempts < job.max_retries
      → handle_failure self queue entry_id job exc s ≡ (
        ok (attempted job),
        record s {
          store = noted job.id failed (some (job.attempts + 1)) s.store;
          metrics = incr_delivery_attempts job.kind false ∷ s.metrics;
        },
      )
  unfolding handle_failure route
  handle_failure_retry job exc s room =
      let counted = record s { metrics = incr_delivery_attempts job.kind false ∷ s.metrics } in
      ground (arith, update_quietly_lem job.id failed (some (job.attempts + 1)) counted)

  -- Redis after `dead_letter`: XACK is sent only if the write to the DLQ returned.
  abbrev pub acked_if : Result String → R → R
  acked_if (ok _) r = (xack transport queue entry_id r).1
  acked_if (err _) r = r

  -- The dead-letter counter moves only if both commands returned.
  abbrev pub buried : Result String → R → Job → List MetricCall → List MetricCall
  buried (ok _) r job calls = elim (xack transport queue entry_id r).0 [
    | ok _ ↦ incr_dead_letter job.kind ∷ calls
    | err _ ↦ calls
  ]
  buried (err _) r job calls = calls

  -- Nor is the call cancelled in the commands of `dead_letter`.
  abbrev pub BurialNotCancelled : Result String → R → Type 0
  BurialNotCancelled (ok _) r = NotCancelled (xack transport queue entry_id r).0
  BurialNotCancelled (err e) r = is_exception e ≡ true

  dead_letter_lem :
      (job : Job) (reason : String) (s : System R)
      → let (q, r) = xadd_dlq transport queue job reason s.redis in
        BurialNotCancelled q r
        → try_except (dead_letter self queue entry_id job reason) (λ _ t. (ok tt, t)) s
          ≡ (ok tt, record s { redis = acked_if q r; metrics = buried q r job s.metrics })
  unfolding dead_letter try_except
  dead_letter_lem job reason s h =
      let (q, r) = xadd_dlq transport queue job reason s.redis in
      elim (Result-cases q) [
        | inl (i, e) ↦ elim (Result-cases (xack transport queue entry_id r).0) [
          | inl (n, a) ↦ ground arith
          | inr (x, a) ↦ ground arith
        ]
        | inr (x, e) ↦ ground arith
      ]

  -- With none left the job goes to the DLQ, and is acknowledged after that.
  pub handle_failure_dead :
      (job : Job) (exc : Exception) (s : System R)
      → let (q, r) = xadd_dlq transport queue (attempted job) (self.describe exc) s.redis in
        job.max_retries ≤ job.attempts
        → BurialNotCancelled q r
        → handle_failure self queue entry_id job exc s ≡ (
          ok (attempted job),
          record s {
            redis = acked_if q r;
            store = noted job.id dead none s.store;
            metrics = buried q r job (incr_delivery_attempts job.kind false ∷ s.metrics);
          },
        )
  unfolding handle_failure route
  handle_failure_dead job exc s spent h =
      let counted = record s { metrics = incr_delivery_attempts job.kind false ∷ s.metrics } in
      ground (
        arith,
        dead_letter_lem (attempted job) (self.describe exc) counted h,
        update_quietly_lem job.id dead none
            (try_except (dead_letter self queue entry_id (attempted job) (self.describe exc))
              (λ _ t. (ok tt, t)) counted).1,
      )
