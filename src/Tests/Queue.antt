-- ===== src/Tests/Queue.antt =====
-- Tests of the queue on a Redis that keeps its stream.
use relayq.Prelude.{String, ◌≡◌, ◌⊎◌, refl, true, none, some, List, [], ◌∷◌, ◌++◌, arith}
use relayq.Effect.{ok, err, queue_full, timeout_error}
use relayq.Domain.Json.{obj}
use relayq.Domain.Job.{Job, new, pending, to_dict}
use relayq.Infrastructure.Redis.Log.{Log, IsStream, is_pending, without}
use relayq.Infrastructure.RedisStream.{
  Transport, stream_key, group_key, xadd, read_group, xack, stream_length,
}
use relayq.Infrastructure.RedisStream.Fifo.{IsWritable, Represents, read_group-xadd}
use relayq.Infrastructure.RedisStream.Fifo.History.{
  Jobs, Runs, History, begins, passes, writes, reads, measures, acks,
}
use relayq.Infrastructure.RedisStream.Fifo.Runs.{fifo}
use relayq.System.{System}
use relayq.Api.Endpoints.{no_validation}
use relayq.Application.Enqueue.{
  Enqueuer, keyed, check_depth, check_key, write_outbox, write_stream, enqueue,
}
use relayq.Application.Enqueue.Delivered.{enqueue_refines}
use relayq.Application.Enqueue.Exhaustion.{
  here, next, acks as acks_from, reads as reads_from, enqueue_exhausted,
}
use relayq.Application.Execute.{Handler, Executor, execute}
use relayq.Application.Execute.Contract.{Pending, Buried, execute_never_loses}
use relayq.Application.Execute.Outcomes.{ran}
use relayq.Tests.Server.{codec, job}
use relayq.Tests.Store.{job_fields}
use relayq.Tests.LogServer.{stream, log_server, log_server-IsStream, log_transport, empty_log}

abbrev pub reading_log : Transport Log
reading_log = record log_transport { codec = record codec { loads = λ t. some (obj job_fields) } }

-- After `xadd`, and after the read of a worker.
abbrev pub sent_log : Log
sent_log = (xadd reading_log "default" job 1000 true empty_log).1

abbrev read_log : Log
read_log = (read_group reading_log 8 "default" "w1" 10 0 sent_log).1

abbrev pub the_job : List (String × String × Job)
the_job = (stream, "1-0", job) ∷ []

pub job-IsWritable : IsWritable reading_log.codec job
unfolding new to_dict
job-IsWritable = record {
  status = pending;
  fields = job_fields;
  has_status = refl;
  dict = refl;
  iso = refl;
  json = refl;
}

-- A write, a measurement, a read and an acknowledgement.
abbrev pub acked_log : Log
acked_log = (xack reading_log "default" "1-0" read_log).1

one_job : Runs reading_log "default" (λ s. s) empty_log acked_log
unfolding stream_length xadd
one_job =
    passes
      (reads 8 "w1" 10 0
        (passes (writes job 999 true begins job-IsWritable (omega arith)) measures))
      (acks "1-0")

pub reading_log-IsStream :
    IsStream log_server (stream_key "relayq" "default") (group_key "relayq" "default") (λ s. s)
unfolding stream_key group_key
reading_log-IsStream = log_server-IsStream

fifo_example :
    (sent got rest : Jobs) × History reading_log "default" (λ s. s) empty_log sent got acked_log
    × (sent ≡ got ++ rest)
    × Represents reading_log "default" (λ s. s) reading_log-IsStream acked_log rest
fifo_example = fifo reading_log "default" (λ s. s) reading_log-IsStream refl one_job

read_group-xadd_example :
    (read_group reading_log 8 "default" "w1" 1 0 sent_log).0
    ≡ ok ((stream_key "relayq" "default", "1-0", job) ∷ [])
unfolding xadd new to_dict stream_key
read_group-xadd_example =
    read_group-xadd reading_log "default" (λ s. s) reading_log-IsStream job 999 true "1-0" 8 "w1" 0
      0 empty_log sent_log job-IsWritable (omega arith) refl refl (λ count block. (_, refl))

-- A queue of one job at most, whose job has been acknowledged.
abbrev pub enqueuer : Enqueuer Log
enqueuer = record { transport = reading_log; max_queue_depth = 1 }

abbrev process : System Log
process = record { redis = acked_log; store = none; metrics = []; monotonic = 0; utcnow = 7 }

nothing_pending : acked_log.pending ≡ []
unfolding xadd read_group xack stream_key new to_dict without
nothing_pending = refl

enqueue_exhausted_example :
    (enqueue enqueuer no_validation job (some "key") process).0 ≡ err (queue_full "default" 1 1)
unfolding new xadd stream_key stream_length to_dict read_group xack
enqueue_exhausted_example =
    enqueue_exhausted enqueuer "default" (λ s. s) reading_log-IsStream {s = sent_log} no_validation
      job (some "key") process 1 (omega arith)
      (next (next here (reads_from 8 "w1" 10 0)) (acks_from "1-0")) refl refl refl refl

-- A queue with room, which holds nothing.
abbrev roomy : Enqueuer Log
roomy = record { transport = reading_log; max_queue_depth = 5 }

abbrev pub unsent : System Log
unsent = record process { redis = empty_log }

abbrev sent : System Log
sent = (enqueue roomy no_validation job none unsent).1

enqueue_refines_example :
    Represents reading_log "default"
      (λ s. s)
      reading_log-IsStream
      sent.redis
      ((stream_key "relayq" "default", "1-0", keyed none job) ∷ [])
unfolding new keyed xadd stream_key stream_length to_dict enqueue check_depth check_key write_outbox
    write_stream
enqueue_refines_example =
    enqueue_refines roomy "default" (λ s. s) reading_log-IsStream no_validation job none unsent sent
      "1-0" [] refl job-IsWritable tt refl

abbrev log_executor : Executor Log
log_executor = record { transport = reading_log; job_timeout_seconds = 30; describe = λ e. "error" }

-- An entry that a worker has read, whose job has retries left and times out.
abbrev busy : System Log
busy = record process { redis = read_log }

abbrev timing_out : Handler Log
timing_out limit job s = record { outcome = err timeout_error; job = job; system = s }

execute_never_loses_example :
    let after = (execute log_executor "default" "1-0" timing_out job busy).1.redis in
    Pending log_executor "default" "1-0" (λ s. s) reading_log-IsStream after
    ⊎ ((ran log_executor "default" "1-0" timing_out job busy).outcome ≡ ok tt)
    ⊎ Buried log_executor "default" "1-0" (λ s. s) reading_log-IsStream timing_out job busy after
unfolding xadd read_group stream_key new to_dict is_pending
execute_never_loses_example =
    execute_never_loses log_executor "default" "1-0" (λ s. s) reading_log-IsStream timing_out job
      busy refl
