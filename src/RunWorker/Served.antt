-- ===== src/RunWorker/Served.antt =====
-- The API of api/main.py and the worker of run_worker.py on one Redis.
use relayq.Prelude.{ℕ, String, ◌≡◌, refl, sym, inl, inr, none, Option, List, [], ◌∷◌, arith}
use relayq.Effect.{Exception, Result, ok, NotCancelled, Result-cases}
use relayq.Effect.Action.{try_except}
use relayq.Domain.Job.{Codec, DateTime, Job}
use relayq.Infrastructure.Redis.{Redis}
use relayq.Infrastructure.Redis.Log.{Log, IsStream}
use relayq.Infrastructure.RedisStream.{stream_key, group_key, read_group, xack}
use relayq.Infrastructure.RedisStream.Fifo.{IsWritable}
use relayq.System.{System}
use relayq.Application.Enqueue.{keyed, enqueue}
use relayq.Application.Enqueue.Delivered.{enqueued_is_read}
use relayq.Application.Execute.Outcomes.{execute_success}
use relayq.Worker.Runner.{Delivery, WorkerRunner, delivered, read_jobs, poll, process_job}
use relayq.Api.Lifespan.{api_enqueuer}
use relayq.RunWorker.{handler, executor, worker_transport, runner}

-- A pass without admission control that came to jobs has read them.
poll-delivered :
    {R : Type 0} (self : WorkerRunner R) (now : DateTime) (s r : R) (jobs : List Delivery)
    → self.admission ≡ none
    → poll self now s ≡ (ok (delivered jobs), r)
    → read_group self.transport now self.queue self.worker_id self.poll_batch self.poll_timeout s
      ≡ (ok jobs, r)
unfolding poll read_jobs try_except
poll-delivered self now s r jobs bare h =
    let q =
      read_group self.transport now self.queue self.worker_id self.poll_batch self.poll_timeout s in
    elim (Result-cases q.0) [ inl (found, e) ↦ ground arith | inr (x, e) ↦ absurd (ground arith) ]

module _ {R : Type 0} (redis : Redis R) (codec : Codec) (describe : Exception → String)
    (view : R → Log)
    (laws : IsStream redis
      (stream_key "relayq" "default")
      (group_key "relayq" "default")
      view) where
  -- The task of a delivery acknowledges its entry and returns.
  process_job-acks :
      (stream entry_id : String) (job : Job) (inflight : ℕ) (s : System R)
      → NotCancelled (xack (worker_transport redis codec describe) "default" entry_id s.redis).0
      → let (r, after) =
          process_job (runner redis codec describe) (stream, entry_id, job) inflight s in
        (r ≡ ok tt)
        × (after.redis
            ≡ (xack (worker_transport redis codec describe) "default" entry_id s.redis).1)
  unfolding process_job runner handler
  process_job-acks stream entry_id job inflight s answered =
      rw
        (execute_success (executor redis codec describe) "default" entry_id handler job s refl
          answered)
        (refl, refl)

  -- On a Redis with the laws of `IsStream`, a job that survives the stream (`IsWritable`), and that the
  -- API's enqueuer accepts for the default queue, where nothing else is undelivered, is what the
  -- worker's next read that comes to jobs has; and the task that runs it returns and has sent its XACK,
  -- if that is not cancelled.
  pub worker_serves_api :
      (validate : Job → Result (Unit {0})) (job : Job) (key : Option String) (s after : System R)
      (id : String) (now : DateTime) (r : R) (jobs : List Delivery) (inflight : ℕ)
      (worker : System R)
      → job.queue ≡ "default"
      → IsWritable codec (keyed key job)
      → (view s.redis).waiting ≡ []
      → enqueue (api_enqueuer redis codec) validate job key s ≡ (ok id, after)
      → poll (runner redis codec describe) now after.redis ≡ (ok (delivered jobs), r)
      → worker.redis ≡ r
      → NotCancelled (xack (worker_transport redis codec describe) "default" id r).0
      → (jobs ≡ (stream_key "relayq" "default", id, keyed key job) ∷ [])
        × (let (q, done) =
              process_job
                (runner redis codec describe)
                (stream_key "relayq" "default", id, keyed key job)
                inflight
                worker in
            (q ≡ ok tt)
            × (done.redis ≡ (xack (worker_transport redis codec describe) "default" id r).1))
  unfolding runner
  worker_serves_api validate job key s after id now r jobs inflight worker same w empty e polled
        same_redis answered =
      let read = poll-delivered (runner redis codec describe) now after.redis r jobs refl polled in
      (
        enqueued_is_read (api_enqueuer redis codec) "default" view laws validate job key s after id
            now "docker-worker" 0 2000 r jobs same w empty e read,
        rw (sym same_redis) (
            process_job-acks (stream_key "relayq" "default") id (keyed key job) inflight worker
              (rw same_redis answered)),
      )
