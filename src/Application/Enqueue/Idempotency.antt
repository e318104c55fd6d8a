-- ===== src/Application/Enqueue/Idempotency.antt =====
-- Two calls of `enqueue` (relayq/application/enqueue.py) with one idempotency key.
use relayq.Prelude.{ℕ, ◌<◌, String, ◌≡◌, ◌≢◌, ◌∙◌, false, some, [], ◌∷◌, ◌++◌, arith, eq_iff}
use relayq.Effect.{Result, ok, err, idempotency_conflict}
use relayq.Domain.Job.{Codec, Job, JobStatus, member, value}
use relayq.Domain.Job.RoundTrip.{parse_status-value}
use relayq.Infrastructure.SqliteStore.{Db, Row, idle, row_of, violates, has_key}
use relayq.Infrastructure.SqliteStore.Outbox.{row_of-keys, select_key-append}
use relayq.Infrastructure.SqliteStore.Kept.{Writes, Writes-Keeps, Keeps, Keeps-job_of}
use relayq.Infrastructure.RedisStream.{stream_length}
use relayq.System.{System}
use relayq.Application.Enqueue.{Enqueuer, keyed, enqueue}
use relayq.Application.Enqueue.Outcomes.{enqueue_accepted, enqueue_conflict}

-- A given key goes into the job, and the job keeps its status and payload.
keyed_fields :
    (key : String) (job : Job)
    → key ≢ ""
    → ((keyed (some key) job).idempotency_key ≡ some key)
      × ((keyed (some key) job).status ≡ job.status)
      × ((keyed (some key) job).payload ≡ job.payload)
unfolding keyed
keyed_fields key job h = ground (arith, eq_iff key "")

violates-has_key :
    (row : Row) (key : String) (db : Db)
    → row.idempotency_key ≡ some key
    → violates row db.rows ≡ false
    → has_key key db.rows ≡ false
unfolding violates
violates-has_key row key db e h = ground arith

-- The payload and the status of a job in its row.
row_of-parts :
    (codec : Codec) (job : Job) (status : JobStatus) (row : Row)
    → job.status ≡ member status
    → row_of codec job ≡ ok row
    → (row.payload ≡ codec.dumps job.payload) × (row.status ≡ value status)
unfolding row_of
row_of-parts codec job status row has_status e = ground arith

rows_of : (a b : Db) → some a ≡ some b → a.rows ≡ b.rows
rows_of a b e = cc

module _ {R : Type 0} (self : Enqueuer R) (validate : Job → Result (Unit {0})) (key : String)
    (job : Job) (status : JobStatus) (s : System R) (depth : ℕ) (r : R) (db : Db) (row : Row)
    (given : key ≢ "") (has_status : job.status ≡ member status)
    (json : self.transport.codec.loads (self.transport.codec.dumps job.payload) ≡ some job.payload)
    (valid : validate job ≡ ok tt)
    (measured : stream_length self.transport job.queue s.redis ≡ (ok depth, r))
    (room : depth < self.max_queue_depth) (stored : s.store ≡ some db) (idle_txn : db.txn ≡ idle)
    (free : db.locked ≡ false)
    (encoded : row_of self.transport.codec (keyed (some key) job) ≡ ok row)
    (fresh : violates row db.rows ≡ false) where
  kept_first : Keeps self.transport.codec key (db.rows ++ row ∷ [])
  kept_first =
      let keys = keyed_fields key job given in
      let same = row_of-keys self.transport.codec (keyed (some key) job) row encoded in
      let parts =
        row_of-parts self.transport.codec (keyed (some key) job) status row (keys.1 ∙ has_status)
          encoded in
      record {
        row = row;
        payload = job.payload;
        status = status;
        has_row =
            select_key-append key db.rows row (violates-has_key row key db (same.1 ∙ keys.0) fresh)
              (same.1 ∙ keys.0);
        json = rw (parts.0, keys.2) json;
        known = rw parts.1 (parse_status-value status);
      }

  -- Once a job with a key that is not empty (and with a status of `JobStatus`, and a payload that survives
  -- `json`) has been written to the outbox, the same connection refuses every later valid job with this key,
  -- for a stream with room, as a conflict, also where the XADD of the first job raised and that job is on no
  -- stream: the later call writes no row and sends nothing but XLEN. Redis, the clocks and the metrics may
  -- have changed in between in any way, and the outbox by any number of inserts and updates of statuses, of
  -- this job's too, that returned or raised.
  pub enqueue_twice :
      (job2 : Job) (depth2 : ℕ) (r2 : R) (later : System R) (db1 db2 : Db)
      → (enqueue self validate job (some key) s).1.store ≡ some db1
      → Writes self.transport.codec db1 db2
      → later.store ≡ some db2
      → validate job2 ≡ ok tt
      → stream_length self.transport job2.queue later.redis ≡ (ok depth2, r2)
      → depth2 < self.max_queue_depth
      → enqueue self validate job2 (some key) later
        ≡ (err (idempotency_conflict key), record later { redis = r2 })
  enqueue_twice job2 depth2 r2 later db1 db2 first between now valid2 measured2 room2 =
      let once =
        enqueue_accepted self validate job s depth r valid measured (some key) db row room stored
          idle_txn free encoded fresh in
      let left : some (record db { rows = db.rows ++ row ∷ [] }) ≡ some db1 = rw once at first in
      let same : db.rows ++ row ∷ [] ≡ db1.rows = rows_of _ db1 left in
      let kept = Writes-Keeps between (rw same at kept_first) in
      let (existing, parsed) = Keeps-job_of kept later.utcnow in
      enqueue_conflict self validate job2 later depth2 r2 valid2 measured2 key db2 kept.row existing
        room2 given now kept.has_row parsed
