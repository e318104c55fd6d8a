-- ===== src/Tests/Served.antt =====
-- A test of the API and the worker on one Redis.
use relayq.Prelude.{◌≡◌, refl, none, some, arith, [], ◌∷◌}
use relayq.Effect.{ok}
use relayq.Effect.Action.{try_except}
use relayq.Domain.Job.{new, to_dict, from_document, from_dict}
use relayq.Infrastructure.Redis.Log.{Log}
use relayq.Infrastructure.RedisStream.{
  stream_key, stream_length, decode_entry, decode_entries, read_group, xadd, xack,
}
use relayq.System.{System}
use relayq.Api.Endpoints.{no_validation}
use relayq.Api.Lifespan.{api_enqueuer}
use relayq.Application.Enqueue.{keyed, check_depth, check_key, write_outbox, write_stream, enqueue}
use relayq.Worker.Runner.{WorkerRunner, paused, poll, read_jobs, process_job}
use relayq.Application.Enqueue.Exhaustion.{here, next, acks, reads}
use relayq.Worker.Runner.Starved.{full_never_read}
use relayq.RunWorker.{runner, worker_transport}
use relayq.RunWorker.Served.{worker_serves_api}
use relayq.Tests.Server.{job}
use relayq.Tests.LogServer.{log_server}
use relayq.Tests.Queue.{
  reading_log, reading_log-IsStream, job-IsWritable, unsent, the_job, enqueuer, sent_log, acked_log,
}

abbrev docker_worker : WorkerRunner Log
docker_worker = runner log_server reading_log.codec (λ e. "error")

abbrev accepted : System Log
accepted = (enqueue (api_enqueuer log_server reading_log.codec) no_validation job none unsent).1

abbrev polled : Log
polled = (poll docker_worker 9 accepted.redis).1

abbrev at_work : System Log
at_work = record unsent { redis = polled }

worker_serves_api_example :
    (the_job ≡ (stream_key "relayq" "default", "1-0", keyed none job) ∷ [])
    × (let (q, done) =
          process_job docker_worker
            (stream_key "relayq" "default", "1-0", keyed none job)
            0
            at_work in
        (q ≡ ok tt)
        × (done.redis
            ≡ (xack
                (worker_transport log_server reading_log.codec (λ e. "error"))
                "default"
                "1-0"
                polled).1))
unfolding new keyed xadd xack stream_key stream_length to_dict read_group decode_entries
    decode_entry from_document from_dict enqueue check_depth check_key write_outbox write_stream
    runner poll read_jobs try_except
worker_serves_api_example =
    worker_serves_api log_server reading_log.codec (λ e. "error") (λ s. s) reading_log-IsStream
      no_validation job none unsent accepted "1-0" 9 polled the_job 0 at_work refl job-IsWritable
      refl refl refl refl tt

-- A worker with admission control, for a queue of one job at most whose job has been acknowledged.
abbrev guarded : WorkerRunner Log
guarded = record docker_worker {
  admission = some (record { transport = reading_log; max_depth = 1; max_oldest = 300 });
}

full_never_read_example : poll guarded 9 acked_log ≡ (ok paused, acked_log)
unfolding new xadd stream_key stream_length to_dict read_group xack runner
full_never_read_example =
    full_never_read enqueuer "default" (λ s. s) reading_log-IsStream {s = sent_log} guarded
      (record { transport = reading_log; max_depth = 1; max_oldest = 300 }) 9 1 refl refl refl
      (omega arith) (omega arith) (next (next here (reads 8 "w1" 10 0)) (acks "1-0")) refl
