-- ===== src/RunWorker.antt =====
-- run_worker.py: the handler of the worker of the Docker image, and the worker that `main` runs.
pub mod Served
use relayq.Prelude.{String, none}
use relayq.Effect.{Exception, ok}
use relayq.Domain.Job.{Codec}
use relayq.Infrastructure.Redis.{Redis}
use relayq.Infrastructure.RedisStream.{Transport}
use relayq.Application.Execute.{Executor, Handler}
use relayq.Worker.Runner.{WorkerRunner}

-- The handler logs the job; what it returns, `execute` does not read.
unfoldable pub handler : {R : Type 0} → Handler R
handler limit job s = record { outcome = ok tt; job = job; system = s }

module _ {R : Type 0} (redis : Redis R) (codec : Codec) (describe : Exception → String) where
  abbrev pub worker_transport : Transport R
  worker_transport = record { redis = redis; prefix = "relayq"; codec = codec }

  abbrev pub executor : Executor R
  executor = record { transport = worker_transport; job_timeout_seconds = 300; describe = describe }

  -- The runner that `main` builds and runs: without admission control, recovery or a store.
  unfoldable pub runner : WorkerRunner R
  unfolding handler
  runner = record {
    transport = worker_transport;
    executor = executor;
    worker_id = "docker-worker";
    queue = "default";
    handler = handler;
    admission = none;
    poll_timeout = 2000;
    poll_batch = 1;
  }
