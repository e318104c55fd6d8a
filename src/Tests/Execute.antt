-- ===== src/Tests/Execute.antt =====
-- Tests of relayq/application/execute.py, recover.py and relayq/worker.
use relayq.Prelude.{◌+◌, ◌≡◌, refl, true, false, none, some, List, [], ◌∷◌, ◌++◌, arith, length}
use relayq.Effect.{
  Result, is_exception, ok, err, handler_error, timeout_error, cancelled_error, connection_error,
}
use relayq.Domain.Job.{Job, new, completed, failed, dead, processing, to_dict}
use relayq.Infrastructure.RedisStream.{autoclaim_stale, xack, xadd_dlq}
use relayq.Telemetry.{incr_delivery_attempts, observe_processing_seconds, incr_dead_letter}
use relayq.Application.Execute.{Handler, Executor, attempted, execute}
use relayq.Application.Execute.Steps.{noted, acked_if}
use relayq.Application.Execute.Outcomes.{execute_success, execute_retry, execute_dead}
use relayq.Application.Recover.{RecoveryWorker, recover_loop}
use relayq.Application.Recover.Round.{recover_loop_lem}
use relayq.Worker.Admission.{AdmissionController}
use relayq.Worker.Runner.{Delivery, Pool, new_pool, receive, spawn, WorkerRunner}
use relayq.Worker.Runner.Bulkhead.{Reach, starts, receives, spawns, Reach-bounded}
use relayq.Tests.Server.{Server, server, transport, job, with_store, empty_server}

abbrev executor : Executor Server
executor = record { transport = transport; job_timeout_seconds = 30; describe = λ e. "error" }

-- A handler that ends so after two seconds.
abbrev ending : Result (Unit {0}) → Handler Server
ending r limit job s = record {
  outcome = r;
  job = job;
  system = record s { monotonic = s.monotonic + 2 };
}

abbrev spent : Job
spent = record job { attempts = 3 }

execute_success_example : execute executor "default" "1-0" (ending (ok tt)) job with_store ≡ (
  ok job,
  record with_store {
    redis = record empty_server { acked = "1-0" ∷ [] };
    store = noted "job_1" completed none (noted "job_1" processing (some 0) with_store.store);
    metrics = incr_delivery_attempts "ping" true ∷ observe_processing_seconds "ping" 2 ∷ [];
    monotonic = 2;
  },
)
unfolding xack new
execute_success_example =
    execute_success executor "default" "1-0" (ending (ok tt)) job with_store refl tt

execute_retry_example :
    execute executor "default" "1-0" (ending (err (handler_error "boom"))) job with_store ≡ (
      ok (attempted job),
      record with_store {
        store = noted "job_1" failed (some 1) (noted "job_1" processing (some 0) with_store.store);
        metrics = incr_delivery_attempts "ping" false ∷ observe_processing_seconds "ping" 2 ∷ [];
        monotonic = 2;
      },
    )
unfolding new is_exception
execute_retry_example =
    execute_retry executor "default" "1-0" (ending (err (handler_error "boom"))) job with_store
      (handler_error "boom") refl refl (omega arith)

-- A job out of retries that passes its time limit.
execute_dead_example :
    execute executor "default" "1-0" (ending (err timeout_error)) spent with_store ≡ (
      ok (attempted spent),
      record with_store {
        redis =
            acked_if executor "default" "1-0"
              (ok "1-0")
              (xadd_dlq transport "default" (attempted spent) "error" empty_server).1;
        store = noted "job_1" dead none (noted "job_1" processing (some 3) with_store.store);
        metrics =
            incr_dead_letter "ping"
            ∷ incr_delivery_attempts "ping" false
            ∷ observe_processing_seconds "ping" 2
            ∷ [];
        monotonic = 2;
      },
    )
unfolding new is_exception xadd_dlq xack to_dict
execute_dead_example =
    execute_dead executor "default" "1-0" (ending (err timeout_error)) spent with_store
      timeout_error refl refl (omega arith) tt

abbrev recovery : RecoveryWorker Server
recovery = record { transport = transport; worker_id = "w1"; min_idle_ms = 60000; claim_batch = 10 }

-- Two rounds while Redis does not answer.
abbrev unreachable : Server
unreachable = record empty_server { down = true }

abbrev refusing : RecoveryWorker Server
refusing = record recovery {
  transport = record transport {
    redis = record server {
      xautoclaim = λ stream group consumer idle start count s. (err connection_error, s);
    };
  };
}

recover_loop_lem_example :
    recover_loop refusing 7 (false ∷ true ∷ false ∷ []) ("mail" ∷ "default" ∷ []) empty_server
    ≡ (ok tt, empty_server)
unfolding autoclaim_stale is_exception
recover_loop_lem_example =
    recover_loop_lem refusing 7 (false ∷ true ∷ false ∷ []) ("mail" ∷ "default" ∷ []) empty_server
      (λ queue r. refl)

abbrev admission : AdmissionController Server
admission = record { transport = transport; max_depth = 0; max_oldest = 10 }

-- One permit and two jobs: the second waits until the first has ended.
abbrev two_jobs : List Delivery
two_jobs = ("s", "1-0", job) ∷ ("s", "2-0", job) ∷ []

abbrev waiting : Pool
waiting = spawn "default" (spawn "default" (receive two_jobs (new_pool 1)))

waiting-Reach : Reach "default" 1 two_jobs waiting
unfolding new_pool
waiting-Reach = spawns (spawns (receives two_jobs starts refl))

Reach-bounded_example :
    (waiting.permits + length waiting.running ≡ 1) × (waiting.started ++ waiting.batch ≡ two_jobs)
Reach-bounded_example = Reach-bounded waiting-Reach

-- A worker whose queue may hold no job, and whose handler is cancelled.
abbrev runner : WorkerRunner Server
runner = record {
  transport = transport;
  executor = executor;
  worker_id = "w1";
  queue = "default";
  handler = ending (err cancelled_error);
  admission = some admission;
  poll_timeout = 2000;
  poll_batch = 10;
}
