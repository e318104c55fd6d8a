-- ===== src/Infrastructure/SqliteStore/Outbox.antt =====
-- What the outbox of relayq/infrastructure/sqlite_store.py holds after an insert or an update.
use relayq.Prelude.{
  ℕ, String, ◌≡◌, ◌≢◌, refl, inl, inr, false, Option, some, List, [], ◌∷◌, ◌++◌, map, arith, eq_iff,
  eq_refl,
}
use mathlib.Core.Path.{fun_ext}
use mathlib.Core.Option.{map as map_option}
use relayq.Effect.{Exception, Result, ok, err, Result-cases, operational_error}
use relayq.Effect.Action.{Action}
use relayq.Domain.Job.{Codec, DateTime, Job, JobStatus, member}
use relayq.Domain.Job.RoundTrip.{parse_status-value}
use relayq.Infrastructure.SqliteStore.{
  Row, Db, idle, has_id, has_key, violates, updated, insert_row, row_of, job_of, select_id,
  select_key, insert_outbox, update_status, transaction, get_job, find_by_idempotency_key,
}

-- How an insert into the table `s` ends: committed with one more row, which no constraint forbids, or
-- refused with nothing changed.
abbrev pub Inserts : Row → Db → Result (Unit {0}) × Db → Type 0
Inserts row s (ok _, s') =
    (s' ≡ record s { rows = s.rows ++ row ∷ [] })
    × (violates row s.rows ≡ false)
    × (s.locked ≡ false)
Inserts row s (err _, s') = s' ≡ s

transaction-insert_row :
    (row : Row) (s : Db) → s.txn ≡ idle → Inserts row s (transaction (insert_row row) s)
unfolding transaction insert_row
transaction-insert_row row s e = ground arith

pub insert_outbox-eq :
    (codec : Codec) (job : Job) (row : Row)
    → row_of codec job ≡ ok row
    → insert_outbox codec job ≡ insert_row row
unfolding insert_outbox
insert_outbox-eq codec job row e = fun_ext (λ s. rw (e, insert_outbox))

-- The transactional insert of `enqueue` on an idle connection is atomic: it commits the row of the
-- job, whose id and key were free, or it raises and leaves the connection as it was.
pub transaction-insert_outbox :
    (codec : Codec) (job : Job) (row : Row) (s : Db)
    → row_of codec job ≡ ok row
    → s.txn ≡ idle
    → Inserts row s (transaction (insert_outbox codec job) s)
transaction-insert_outbox codec job row s e idle_txn =
    rw (insert_outbox-eq codec job row e) (transaction-insert_row row s idle_txn)

-- With the lock free, and the id and the key of the row free too, the insert commits.
pub transaction-insert_free :
    (codec : Codec) (job : Job) (row : Row) (s : Db)
    → s.txn ≡ idle
    → s.locked ≡ false
    → row_of codec job ≡ ok row
    → violates row s.rows ≡ false
    → transaction (insert_outbox codec job) s ≡ (ok tt, record s { rows = s.rows ++ row ∷ [] })
unfolding transaction insert_row
transaction-insert_free codec job row s idle_txn free e fresh =
    rw (insert_outbox-eq codec job row e) (ground arith)

Inserts-ok :
    (row : Row) (s : Db) (r : Result (Unit {0}) × Db)
    → Inserts row s r
    → r.0 ≡ ok tt
    → (r.1 ≡ record s { rows = s.rows ++ row ∷ [] }) × (violates row s.rows ≡ false)
Inserts-ok row s (ok _, s') h e = (h.0, h.1)
Inserts-ok row s (err x, s') h e = cc

pub transaction-unencodable :
    (codec : Codec) (job : Job) (x : Exception) (s : Db)
    → row_of codec job ≡ err x
    → (transaction (insert_outbox codec job) s).0 ≢ ok tt
unfolding transaction insert_outbox
transaction-unencodable codec job x s e done = ground arith

-- What a transactional insert that returned has done.
pub insert_outbox-committed :
    (codec : Codec) (job : Job) (s : Db)
    → s.txn ≡ idle
    → (transaction (insert_outbox codec job) s).0 ≡ ok tt
    → (row : Row) × (row_of codec job ≡ ok row)
      × (violates row s.rows ≡ false)
      × ((transaction (insert_outbox codec job) s).1 ≡ record s { rows = s.rows ++ row ∷ [] })
insert_outbox-committed codec job s idle_txn done = elim (Result-cases (row_of codec job)) [
  | inl (row, e) ↦
      let (rows, free) =
        Inserts-ok row s _ (transaction-insert_outbox codec job row s e idle_txn) done in
      (row, e, free, rows)
  | inr (x, e) ↦ absurd (transaction-unencodable codec job x s e done)
]

pub select_id-append :
    (id : String) (rows : List Row) (row : Row)
    → has_id id rows ≡ false
    → row.id ≡ id
    → select_id id (rows ++ row ∷ []) ≡ some row
unfolding select_id has_id
select_id-append id [] row h e = ground (arith, eq_iff row.id id)
select_id-append id (x ∷ rows) row h e = ground (arith, select_id-append id rows row)

pub select_key-append :
    (key : String) (rows : List Row) (row : Row)
    → has_key key rows ≡ false
    → row.idempotency_key ≡ some key
    → select_key key (rows ++ row ∷ []) ≡ some row
unfolding select_key has_key
select_key-append key [] row h e = ground (arith, eq_refl key)
select_key-append key (x ∷ rows) row h e = ground (arith, select_key-append key rows row)

pub job_of-row_of :
    (codec : Codec) (now : DateTime) (job : Job) (s : JobStatus) (row : Row)
    → job.status ≡ member s
    → codec.loads (codec.dumps job.payload) ≡ some job.payload
    → row_of codec job ≡ ok row
    → job_of codec now row ≡ ok (record job { created_at = now })
unfolding row_of job_of
job_of-row_of codec now job s row st js e = ground (arith, parse_status-value s)

-- The row of a job has its id and its key.
pub row_of-keys :
    (codec : Codec) (job : Job) (row : Row)
    → row_of codec job ≡ ok row
    → (row.id ≡ job.id) × (row.idempotency_key ≡ job.idempotency_key)
unfolding row_of
row_of-keys codec job row e = ground arith

-- A job whose status is a member of `JobStatus` and whose payload survives `json` is found by its id
-- once a transaction on an idle connection has inserted it, with all its fields but the time of
-- creation: the store returns the time of the lookup in its place.
pub get_job-insert_outbox :
    (codec : Codec) (now : DateTime) (job : Job) (st : JobStatus) (s : Db)
    → job.status ≡ member st
    → codec.loads (codec.dumps job.payload) ≡ some job.payload
    → s.txn ≡ idle
    → (transaction (insert_outbox codec job) s).0 ≡ ok tt
    → (get_job codec now job.id (transaction (insert_outbox codec job) s).1).0
      ≡ ok (some (record job { created_at = now }))
unfolding get_job violates
get_job-insert_outbox codec now job st s status payload idle_txn done =
    let (row, e, free, after) = insert_outbox-committed codec job s idle_txn done in
    let keys = row_of-keys codec job row e in
    ground (
      arith,
      after,
      select_id-append job.id s.rows row,
      job_of-row_of codec now job st row status payload e,
    )

-- A job with an idempotency key, whose status is a member of `JobStatus` and whose payload survives
-- `json`, is found by that key once a transaction on an idle connection has inserted it, with all its
-- fields but the time of creation.
find-insert_outbox :
    (codec : Codec) (now : DateTime) (job : Job) (st : JobStatus) (key : String) (s : Db)
    → job.status ≡ member st
    → job.idempotency_key ≡ some key
    → codec.loads (codec.dumps job.payload) ≡ some job.payload
    → s.txn ≡ idle
    → (transaction (insert_outbox codec job) s).0 ≡ ok tt
    → (find_by_idempotency_key codec now key (transaction (insert_outbox codec job) s).1).0
      ≡ ok (some (record job { created_at = now }))
unfolding find_by_idempotency_key violates
find-insert_outbox codec now job st key s status keyed payload idle_txn done =
    let (row, e, free, after) = insert_outbox-committed codec job s idle_txn done in
    let keys = row_of-keys codec job row e in
    ground (
      arith,
      after,
      select_key-append key s.rows row,
      job_of-row_of codec now job st row status payload e,
    )

-- The row of an id after an update: its new status and attempts, nothing else changed, and the rows
-- of the other ids as they were.
pub select_id-updated :
    (id i st : String) (n : Option ℕ) (rows : List Row)
    → select_id id (map (updated i st n) rows) ≡ map_option (updated i st n) (select_id id rows)
unfolding select_id updated
select_id-updated id i st n [] = refl
select_id-updated id i st n (x ∷ rows) = ground (arith, select_id-updated id i st n rows)

-- On an idle connection that gets the lock, `update_status` returns and leaves its transaction open;
-- the next `transaction` on the connection is refused, whatever its body, and changes nothing.
pub transaction-update_status :
    {A : Type 0} (id : String) (st : JobStatus) (n : Option ℕ) (body : Action Db A) (s : Db)
    → s.txn ≡ idle
    → s.locked ≡ false
    → let (r, s') = update_status id st n s in
      (r ≡ ok tt) × (transaction body s' ≡ (err operational_error, s'))
unfolding transaction update_status
transaction-update_status id st n body s idle_txn free = ground arith
