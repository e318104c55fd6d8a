-- ===== src/Application/Enqueue/Steps.antt =====
-- The steps of `enqueue` (relayq/application/enqueue.py), one by one.
use relayq.Prelude.{
  ◌+◌, String, ◌≡◌, refl, true, false, Option, none, some, List, [], ◌∷◌, ◌++◌, arith, eq_iff,
}
use relayq.Effect.{ok}
use relayq.Domain.Job.{Job}
use relayq.Infrastructure.SqliteStore.{
  Db, Row, idle, row_of, violates, has_key, key_taken, select_key, find_by_idempotency_key,
}
use relayq.Infrastructure.SqliteStore.Outbox.{row_of-keys, transaction-insert_free}
use relayq.Infrastructure.RedisStream.{xadd}
use relayq.System.{System}
use relayq.Application.Enqueue.{Enqueuer, given_key, keyed, check_key, write_outbox, write_stream}

module _ {R : Type 0} (self : Enqueuer R) where
  open self use {transport}

  pub check_key-no_store :
      (given : Option String) (s : System R) → s.store ≡ none → check_key self given s ≡ (ok tt, s)
  unfolding check_key
  check_key-no_store none s bare = refl
  check_key-no_store (some key) s bare = ground arith

  select_key-free :
      (key : String) (rows : List Row) → has_key key rows ≡ false → select_key key rows ≡ none
  unfolding has_key select_key
  select_key-free key [] h = refl
  select_key-free key (x ∷ rows) h = ground (arith, select_key-free key rows)

  -- A key that no row has passes the check.
  check_key-fresh :
      (given : Option String) (db : Db) (s : System R)
      → s.store ≡ some db
      → key_taken given db.rows ≡ false
      → check_key self given s ≡ (ok tt, s)
  unfolding check_key find_by_idempotency_key
  check_key-fresh none db s stored free = refl
  check_key-fresh (some key) db s stored free = ground (arith, select_key-free key db.rows)

  -- The key that is looked up is the one of the row, if a key is given.
  key_taken-given :
      (key : Option String) (job : Job) (row : Row) (rows : List Row)
      → row.idempotency_key ≡ (keyed key job).idempotency_key
      → violates row rows ≡ false
      → key_taken (given_key key) rows ≡ false
  unfolding keyed violates
  key_taken-given none job row rows e h = refl
  key_taken-given (some key) job row rows e h = ground (arith, eq_iff key "")

  pub check_key-free :
      (key : Option String) (job : Job) (row : Row) (db : Db) (s : System R)
      → s.store ≡ some db
      → row_of transport.codec (keyed key job) ≡ ok row
      → violates row db.rows ≡ false
      → check_key self (given_key key) s ≡ (ok tt, s)
  check_key-free key job row db s stored encoded fresh =
      check_key-fresh (given_key key) db s stored (
        key_taken-given key job row db.rows
          (row_of-keys transport.codec (keyed key job) row encoded).1 fresh)

  pub write_outbox-free :
      (job : Job) (row : Row) (db : Db) (s : System R)
      → s.store ≡ some db
      → db.txn ≡ idle
      → db.locked ≡ false
      → row_of transport.codec job ≡ ok row
      → violates row db.rows ≡ false
      → write_outbox self job s
        ≡ (ok tt, record s { store = some (record db { rows = db.rows ++ row ∷ [] }) })
  unfolding write_outbox
  write_outbox-free job row db s stored idle_txn free encoded fresh =
      ground (arith, transaction-insert_free transport.codec job row db idle_txn free encoded fresh)

  pub keyed-queue : (key : Option String) (job : Job) → (keyed key job).queue ≡ job.queue
  unfolding keyed
  keyed-queue key job = ground arith

  -- The stream is the one of the job's queue.
  pub write_stream-keyed :
      (key : Option String) (job : Job) (s : System R)
      → let (q, r) =
          xadd transport job.queue (keyed key job) (self.max_queue_depth + 1000) true s.redis in
        write_stream self (keyed key job) s ≡ (q, record s { redis = r })
  unfolding write_stream
  write_stream-keyed key job s = rw (keyed-queue key job)
