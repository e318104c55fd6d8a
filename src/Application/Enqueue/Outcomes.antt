-- ===== src/Application/Enqueue/Outcomes.antt =====
-- How a call of `enqueue` (relayq/application/enqueue.py) ends, in the order of its steps.
use relayq.Prelude.{
  ◌∙◌, ℕ, ◌+◌, ◌≤◌, ◌<◌, String, ◌≡◌, ◌≢◌, true, false, Option, none, some, [], ◌∷◌, ◌++◌, arith,
  eq_iff,
}
use relayq.Effect.{Exception, Result, ok, err, queue_full, idempotency_conflict}
use relayq.Domain.Job.{Job}
use relayq.Infrastructure.SqliteStore.{
  Db, Row, idle, row_of, job_of, violates, select_key, find_by_idempotency_key,
}
use relayq.Infrastructure.RedisStream.{stream_length, xadd}
use relayq.System.{System}
use relayq.Application.Enqueue.Steps.{
  check_key-no_store, check_key-free, write_outbox-free, write_stream-keyed,
}
use relayq.Application.Enqueue.{
  Enqueuer, given_key, keyed, check_depth, check_key, write_outbox, write_stream, enqueue,
}

module _ {R : Type 0} (self : Enqueuer R) (validate : Job → Result (Unit {0})) (job : Job) where
  open self use {transport, max_queue_depth}

  -- A job that the hook refuses has no effect at all.
  pub enqueue_invalid :
      (key : Option String) (e : Exception) (s : System R)
      → validate job ≡ err e
      → enqueue self validate job key s ≡ (err e, s)
  unfolding enqueue
  enqueue_invalid key e s h = ground arith

  module _ (s : System R) (depth : ℕ) (r : R) (valid : validate job ≡ ok tt)
      (measured : stream_length transport job.queue s.redis ≡ (ok depth, r)) where
    -- A valid job for a stream whose measured length is the maximal depth or more is refused as
    -- `QueueFull` with that length; the outbox is not written, and nothing is sent to Redis but XLEN.
    pub enqueue_full :
        (key : Option String)
        → max_queue_depth ≤ depth
        → enqueue self validate job key s
          ≡ (err (queue_full job.queue depth max_queue_depth), record s { redis = r })
    unfolding enqueue check_depth
    enqueue_full key full = ground arith

    enqueue_checked :
        (key : Option String)
        → depth < max_queue_depth
        → (check_depth self job s) ≡ (ok tt, record s { redis = r })
    unfolding check_depth
    enqueue_checked key room = ground arith

    -- With room in the stream, a key that is not empty and that a readable row of the outbox has is an
    -- `IdempotencyConflict`: no row is written, and nothing is sent to Redis but XLEN.
    pub enqueue_conflict :
        (key : String) (db : Db) (row : Row) (existing : Job)
        → depth < max_queue_depth
        → key ≢ ""
        → s.store ≡ some db
        → select_key key db.rows ≡ some row
        → job_of transport.codec s.utcnow row ≡ ok existing
        → enqueue self validate job (some key) s
          ≡ (err (idempotency_conflict key), record s { redis = r })
    unfolding enqueue check_key given_key find_by_idempotency_key
    enqueue_conflict key db row existing room given stored hit readable =
        ground (arith, enqueue_checked (some key) room, eq_iff key "")

    -- Past the checks and the outbox, the call is its XADD.
    enqueue_written :
        (key : Option String) (t : System R)
        → depth < max_queue_depth
        → check_key self (given_key key) (record s { redis = r }) ≡ (ok tt, record s { redis = r })
        → write_outbox self (keyed key job) (record s { redis = r }) ≡ (ok tt, t)
        → enqueue self validate job key s ≡ write_stream self (keyed key job) t
    unfolding enqueue
    enqueue_written key t room unique written = ground (arith, enqueue_checked key room)

    -- With room in the stream and without a store, a key protects from nothing: the job goes to the
    -- stream, whatever was enqueued before, and the result is that of XADD.
    pub enqueue_no_store :
        (key : Option String)
        → depth < max_queue_depth
        → s.store ≡ none
        → let (q, r') = xadd transport job.queue (keyed key job) (max_queue_depth + 1000) true r in
          enqueue self validate job key s ≡ (q, record s { redis = r' })
    unfolding write_outbox
    enqueue_no_store key room bare =
        enqueue_written key (record s { redis = r }) room
          (check_key-no_store self (given_key key) _ bare) (ground arith)
        ∙ write_stream-keyed self key job _

    -- With room in the stream, and on an idle store that gets its lock, a job that has a row, whose id
    -- and key are free, is committed to the outbox, and then XADD is sent, whose result is the call's;
    -- the row stays whether XADD returns or raises.
    pub enqueue_accepted :
        (key : Option String) (db : Db) (row : Row)
        → depth < max_queue_depth
        → s.store ≡ some db
        → db.txn ≡ idle
        → db.locked ≡ false
        → row_of transport.codec (keyed key job) ≡ ok row
        → violates row db.rows ≡ false
        → let (q, r') = xadd transport job.queue (keyed key job) (max_queue_depth + 1000) true r in
          enqueue self validate job key s
          ≡ (q, record s { redis = r'; store = some (record db { rows = db.rows ++ row ∷ [] }) })
    enqueue_accepted key db row room stored idle_txn free encoded fresh =
        enqueue_written key _ room (check_key-free self key job row db _ stored encoded fresh)
          (write_outbox-free self (keyed key job) row db _ stored idle_txn free encoded fresh)
        ∙ write_stream-keyed self key job _
