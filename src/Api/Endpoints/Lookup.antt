-- ===== src/Api/Endpoints/Lookup.antt =====
-- `POST /jobs` and `GET /jobs/{job_id}` of api/main.py, one after the other.
use relayq.Prelude.{ℕ, ◌≤◌, String, ◌≡◌, refl, some}
use relayq.Effect.{ok, queue_full}
use relayq.Domain.Job.{Job}
use relayq.Infrastructure.Redis.Log.{Log}
use relayq.Infrastructure.RedisStream.{stream_length}
use relayq.System.{System}
use relayq.Application.Enqueue.{Enqueuer, keyed}
use relayq.Application.Enqueue.Outcomes.{enqueue_full}
use relayq.Api.Request.{EnqueueRequest}
use relayq.Api.Endpoints.{Globals, refused, no_validation, job_of_request, enqueue_job}

module _ {R : Type 0} (app : Globals R) (enqueuer : Enqueuer R) (job_id : String)
    (req : EnqueueRequest) (ready : app.enqueuer ≡ some enqueuer) where
  open enqueuer use {transport, max_queue_depth}

  -- The job that is enqueued.
  abbrev pub requested : System R → Job
  requested s = keyed req.idempotency_key (job_of_request job_id req s)

  -- A request for a queue at its maximal depth is answered with 503, and nothing is written.
  enqueue_job-full :
      (s : System R) (depth : ℕ) (r : R)
      → stream_length enqueuer.transport req.queue s.redis ≡ (ok depth, r)
      → max_queue_depth ≤ depth
      → enqueue_job app job_id req s
        ≡ (ok (refused 503 (queue_full req.queue depth max_queue_depth)), record s { redis = r })
  unfolding enqueue_job job_of_request
  enqueue_job-full s depth r measured full =
      let first =
        enqueue_full enqueuer no_validation (job_of_request job_id req s) s depth r refl measured
          req.idempotency_key full in
      rw (ready, first)
