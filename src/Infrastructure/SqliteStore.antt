-- ===== src/Infrastructure/SqliteStore.antt =====
-- relayq/infrastructure/sqlite_store.py: one thread's connection to the `jobs` table, with the implicit
-- transactions of Python's `sqlite3`. Each SQL statement of the source is a function on the table.
pub mod Unique
pub mod Valid
pub mod Outbox
pub mod Kept
use relayq.Prelude.{
  ℕ, String, Bool, true, false, ◌||◌, Option, none, some, List, [], ◌∷◌, ◌++◌, map, str_eq,
  if◌then◌else◌,
}
use relayq.Effect.{
  Result, ok, err, ◌>>=◌, or_raise, is_exception, integrity_error, operational_error,
  json_decode_error,
}
use relayq.Effect.Action.{Action}
use relayq.Domain.Job.{Codec, DateTime, Job, JobStatus, member, value, parse_status, status_value}

-- A row of `CREATE TABLE jobs`; the payload and the creation time are texts.
pub record Row : Type 0 where
  pub id : String
  pub kind : String
  pub payload : String
  pub status : String
  pub created_at : String
  pub attempts : ℕ
  pub max_retries : ℕ
  pub idempotency_key : Option String
  pub queue : String

-- The transaction of the connection: none, begun without the write lock, or writing, with the rows
-- that a rollback restores.
pub data Txn : Type 0 where
  idle deferred : Txn
  writing : List Row → Txn

pub record Db : Type 0 where
  pub rows : List Row
  pub txn : Txn
  -- another connection keeps the write lock for longer than `busy_timeout`
  pub locked : Bool

-- A data statement opens a transaction if none is open, and then wants the write lock.
unfoldable pub claim : Txn → Bool → Db → Result (Unit {0}) × Db
claim idle true s = (err operational_error, record s { txn = deferred })
claim idle false s = (ok tt, record s { txn = writing s.rows })
claim deferred true s = (err operational_error, s)
claim deferred false s = (ok tt, record s { txn = writing s.rows })
claim (writing saved) _ s = (ok tt, s)

-- `BEGIN IMMEDIATE` is refused inside a transaction.
unfoldable pub begin : Txn → Bool → Db → Result (Unit {0}) × Db
begin idle true s = (err operational_error, s)
begin idle false s = (ok tt, record s { txn = writing s.rows })
begin _ _ s = (err operational_error, s)

abbrev pub begin_immediate : Action Db (Unit {0})
begin_immediate s = begin s.txn s.locked s

pub commit : Db → Db
commit s = record s { txn = idle }

abbrev pub restored : Txn → List Row → List Row
restored (writing saved) rows = saved
restored _ rows = rows

pub rollback : Db → Db
rollback s = record s { rows = restored s.txn s.rows; txn = idle }

unfoldable pub has_id : String → List Row → Bool
has_id id [] = false
has_id id (r ∷ rows) = str_eq r.id id || has_id id rows

-- A NULL key equals no key, and the index leaves it out.
abbrev pub same_key : Option String → String → Bool
same_key none key = false
same_key (some k) key = str_eq k key

unfoldable pub has_key : String → List Row → Bool
has_key key [] = false
has_key key (r ∷ rows) = same_key r.idempotency_key key || has_key key rows

abbrev pub key_taken : Option String → List Row → Bool
key_taken none rows = false
key_taken (some key) rows = has_key key rows

-- The PRIMARY KEY on `id`, and the UNIQUE index on `idempotency_key WHERE … IS NOT NULL`.
unfoldable pub violates : Row → List Row → Bool
unfolding has_id has_key
violates row rows = has_id row.id rows || key_taken row.idempotency_key rows

-- `INSERT INTO jobs`
unfoldable pub insert_row : Row → Action Db (Unit {0})
unfolding claim violates
insert_row row s =
    let (r, s') = claim s.txn s.locked s in
    elim r [
      | err e ↦ (err e, s')
      | ok _ ↦
          if violates row s'.rows
          then (err integrity_error, s')
          else (ok tt, record s' { rows = s'.rows ++ row ∷ [] })
    ]

abbrev pub changed_attempts : Option ℕ → ℕ → ℕ
changed_attempts none old = old
changed_attempts (some n) old = n

-- `UPDATE jobs SET status = ?[, attempts = ?] WHERE id = ?`, on one row.
unfoldable pub updated : String → String → Option ℕ → Row → Row
updated id status attempt r =
    if str_eq r.id id
    then record r { status = status; attempts = changed_attempts attempt r.attempts }
    else r

unfoldable pub update_rows : String → String → Option ℕ → Action Db (Unit {0})
unfolding claim updated
update_rows id status attempt s =
    let (r, s') = claim s.txn s.locked s in
    elim r [
      | err e ↦ (err e, s')
      | ok _ ↦ (ok tt, record s' { rows = map (updated id status attempt) s'.rows })
    ]

-- The tuple of parameters of `insert_outbox`.
unfoldable pub row_of : Codec → Job → Result Row
unfolding status_value
row_of codec job = do
  status ← status_value job.status
  ok (record {
    id = job.id;
    kind = job.kind;
    payload = codec.dumps job.payload;
    status = status;
    created_at = codec.isoformat job.created_at;
    attempts = job.attempts;
    max_retries = job.max_retries;
    idempotency_key = job.idempotency_key;
    queue = job.queue;
  })

unfoldable pub insert_outbox : Codec → Job → Action Db (Unit {0})
unfolding row_of insert_row
insert_outbox codec job s = elim (row_of codec job) [
  | err e ↦ (err e, s)
  | ok row ↦ insert_row row s
]

unfoldable pub update_status : String → JobStatus → Option ℕ → Action Db (Unit {0})
unfolding update_rows value
update_status job_id status attempt = update_rows job_id (value status) attempt

-- `SELECT * FROM jobs WHERE id = ?`, and by the key, as `fetchone` returns them.
unfoldable pub select_id : String → List Row → Option Row
select_id id [] = none
select_id id (r ∷ rows) = if str_eq r.id id then some r else select_id id rows

unfoldable pub select_key : String → List Row → Option Row
select_key key [] = none
select_key key (r ∷ rows) = if same_key r.idempotency_key key then some r else select_key key rows

-- The job of a row. The time of creation is the clock's, not the row's.
unfoldable pub job_of : Codec → DateTime → Row → Result Job
unfolding parse_status
job_of codec now row = do
  payload ← or_raise (codec.loads row.payload) json_decode_error
  status ← parse_status row.status
  ok (record {
    id = row.id;
    kind = row.kind;
    payload = payload;
    status = member status;
    created_at = now;
    attempts = row.attempts;
    max_retries = row.max_retries;
    idempotency_key = row.idempotency_key;
    queue = row.queue;
  })

abbrev pub found : Codec → DateTime → Option Row → Result (Option Job)
found codec now none = ok none
found codec now (some row) = do job ← job_of codec now row; ok (some job)

unfoldable pub get_job : Codec → DateTime → String → Action Db (Option Job)
unfolding select_id job_of
get_job codec now job_id s = (found codec now (select_id job_id s.rows), s)

unfoldable pub find_by_idempotency_key : Codec → DateTime → String → Action Db (Option Job)
unfolding select_key job_of
find_by_idempotency_key codec now key s = (found codec now (select_key key s.rows), s)

-- How the block of a transaction ends: `except Exception` rolls back, and a cancellation is not one.
unfoldable pub finish : {A : Type 0} → Result A → Action Db A
unfolding commit rollback is_exception
finish (ok a) s = (ok a, commit s)
finish (err e) s = (err e, if is_exception e then rollback s else s)

-- `async with store.transaction(): body`
unfoldable pub transaction : {A : Type 0} → Action Db A → Action Db A
unfolding begin finish
transaction body s =
    let (r, s') = begin_immediate s in
    elim r [ err e ↦ (err e, s') | ok _ ↦ let (q, s'') = body s' in finish q s'' ]
