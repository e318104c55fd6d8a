-- ===== src/Tests/Enqueue.antt =====
-- Tests of relayq/application/enqueue.py.
use relayq.Prelude.{String, ◌≡◌, ◌≢◌, refl, true, some, arith, eq_iff}
use relayq.Effect.{err, idempotency_conflict, connection_error}
use relayq.Domain.Job.{new, pending, completed}
use relayq.Infrastructure.RedisStream.{stream_length, stream_key, xadd}
use relayq.Infrastructure.SqliteStore.{
  row_of, insert_outbox, transaction, find_by_idempotency_key, select_key, job_of, violates, Db,
  update_status,
}
use relayq.Infrastructure.SqliteStore.Kept.{Writes, begins, updates}
use relayq.System.{System}
use relayq.Api.Endpoints.{no_validation}
use relayq.Application.Enqueue.{
  Enqueuer, keyed, check_depth, check_key, write_outbox, write_stream, enqueue,
}
use relayq.Application.Enqueue.Outcomes.{enqueue_conflict, enqueue_accepted}
use relayq.Application.Enqueue.Idempotency.{enqueue_twice}
use relayq.Tests.Server.{
  codec, Server, server, transport, job, with_store, empty_server, empty_db, job_row, keyed_job,
  full_db,
}

abbrev enqueuer : Enqueuer Server
enqueuer = record { transport = transport; max_queue_depth = 1 }

abbrev closed : Enqueuer Server
closed = record { transport = transport; max_queue_depth = 0 }

abbrev busy : System Server
busy = record with_store { store = some full_db }

abbrev the_key : String
the_key = "key"

key_given : the_key ≢ ""
key_given e = ground (arith, eq_iff the_key "")

enqueue_conflict_example :
    enqueue enqueuer no_validation job (some "key") busy ≡ (err (idempotency_conflict "key"), busy)
unfolding new stream_length stream_key select_key job_of
enqueue_conflict_example =
    enqueue_conflict enqueuer no_validation job busy 0 empty_server refl refl "key" full_db job_row
      (record keyed_job { created_at = 7 }) (omega arith) key_given refl refl refl

enqueue_accepted_example : enqueue enqueuer no_validation job (some "key") with_store ≡ (
    let (q, r) = xadd transport "default" (keyed (some "key") job) 1001 true empty_server in
    (q, record with_store { redis = r; store = some full_db }))
unfolding new stream_length stream_key row_of keyed violates
enqueue_accepted_example =
    enqueue_accepted enqueuer no_validation job with_store 0 empty_server refl refl (some "key")
      empty_db job_row (omega arith) refl refl refl refl refl

-- A server that answers XLEN and refuses XADD.
abbrev losing : Enqueuer Server
losing = record enqueuer {
  transport = record transport {
    redis = record server { xadd = λ key body maxlen approximate s. (err connection_error, s) };
  };
}

abbrev first : System Server
first = (enqueue losing no_validation job (some "key") with_store).1

-- Later, when the job is done, and the update of its status has left its transaction open.
abbrev done_db : Db
done_db = (update_status "job_1" completed (some 2) full_db).1

abbrev later : System Server
later = record first { store = some done_db; utcnow = 90 }

full_db-Writes : Writes codec full_db done_db
full_db-Writes = updates "job_1" completed (some 2) begins

enqueue_twice_example :
    enqueue losing no_validation (new "job_2" "pong" 6) (some "key") later
    ≡ (err (idempotency_conflict "key"), record later { redis = empty_server })
unfolding new stream_length stream_key row_of keyed violates enqueue check_depth check_key
    find_by_idempotency_key write_outbox transaction insert_outbox write_stream xadd
enqueue_twice_example =
    enqueue_twice losing no_validation "key" job pending with_store 0 empty_server empty_db job_row
      key_given refl refl refl refl (omega arith) refl refl refl refl refl (new "job_2" "pong" 6) 0
      empty_server later full_db done_db refl full_db-Writes refl refl refl (omega arith)
