-- ===== src/Infrastructure/SqliteStore/Kept.antt =====
-- What the connection of relayq/infrastructure/sqlite_store.py finds under a key, from one operation to the next.
use relayq.Prelude.{
  ℕ, String, ◌≡◌, ◌⊎◌, inl, inr, Bool, Option, some, List, [], ◌∷◌, ◌++◌, map, arith,
}
use relayq.Effect.{Exception, ok, err, Result-cases}
use relayq.Domain.Json.{Json}
use relayq.Domain.Job.{Codec, DateTime, Job, JobStatus, parse_status, value}
use relayq.Domain.Job.RoundTrip.{parse_status-value}
use relayq.Infrastructure.SqliteStore.{
  Row, Db, select_key, row_of, job_of, updated, update_rows, update_status, insert_row,
  insert_outbox, transaction,
}
use relayq.Infrastructure.SqliteStore.Outbox.{insert_outbox-eq}

-- The writes of the store, returning or raising, and the lock of other connections changing between them.
pub data Writes (codec : Codec) (start : Db) : Db → Type 0 where
  begins : Writes codec start start
  inserts :
      {s : Db} (job : Job)
      → Writes codec start s
      → Writes codec start (transaction (insert_outbox codec job) s).1
  updates :
      {s : Db} (id : String) (status : JobStatus) (attempts : Option ℕ)
      → Writes codec start s
      → Writes codec start (update_status id status attempts s).1
  locks :
      {s : Db} (locked : Bool)
      → Writes codec start s
      → Writes codec start (record s { locked = locked })

-- The rows have one under the key that parses as a job.
pub record Keeps (codec : Codec) (key : String) (rows : List Row) : Type 0 where
  pub row : Row
  pub payload : Json
  pub status : JobStatus
  pub has_row : select_key key rows ≡ some row
  pub json : codec.loads row.payload ≡ some payload
  pub known : parse_status row.status ≡ ok status

pub Keeps-job_of :
    {codec : Codec} {key : String} {rows : List Row} (kept : Keeps codec key rows) (now : DateTime)
    → (job : Job) × (job_of codec now kept.row ≡ ok job)
unfolding job_of
Keeps-job_of {codec} kept now = elim (Result-cases (job_of codec now kept.row)) [
  | inl parsed ↦ parsed
  | inr (x, e) ↦ absurd (ground (arith, kept.json, kept.known))
]

select_key-kept :
    (key : String) (rows : List Row) (row new : Row)
    → select_key key rows ≡ some row
    → select_key key (rows ++ new ∷ []) ≡ some row
unfolding select_key
select_key-kept key [] row new h = absurd (ground arith)
select_key-kept key (x ∷ rows) row new h = ground (arith, select_key-kept key rows row new)

updated-key :
    (id status : String) (attempts : Option ℕ) (row : Row)
    → (updated id status attempts row).idempotency_key ≡ row.idempotency_key
unfolding updated
updated-key id status attempts row = ground arith

select_key-updated :
    (key id status : String) (attempts : Option ℕ) (rows : List Row) (row : Row)
    → select_key key rows ≡ some row
    → select_key key (map (updated id status attempts) rows) ≡ some (updated id status attempts row)
unfolding select_key
select_key-updated key id status attempts [] row h = absurd (ground arith)
select_key-updated key id status attempts (x ∷ rows) row h =
    ground
      (arith, updated-key id status attempts x, select_key-updated key id status attempts rows row)

updated-payload :
    (id status : String) (attempts : Option ℕ) (row : Row)
    → (updated id status attempts row).payload ≡ row.payload
unfolding updated
updated-payload id status attempts row = ground arith

updated-status :
    (id status : String) (attempts : Option ℕ) (row : Row)
    → ((updated id status attempts row).status ≡ row.status)
      ⊎ ((updated id status attempts row).status ≡ status)
unfolding updated
updated-status id status attempts row = ground arith

transaction-insert_row-rows :
    (row : Row) (s : Db)
    → ((transaction (insert_row row) s).1.rows ≡ s.rows)
      ⊎ ((transaction (insert_row row) s).1.rows ≡ s.rows ++ row ∷ [])
unfolding transaction insert_row
transaction-insert_row-rows row s = ground arith

transaction-unencodable_rows :
    (codec : Codec) (job : Job) (x : Exception) (s : Db)
    → row_of codec job ≡ err x
    → (transaction (insert_outbox codec job) s).1.rows ≡ s.rows
unfolding transaction insert_outbox
transaction-unencodable_rows codec job x s e = ground arith

update_rows-rows :
    (id status : String) (attempts : Option ℕ) (s : Db)
    → ((update_rows id status attempts s).1.rows ≡ s.rows)
      ⊎ ((update_rows id status attempts s).1.rows ≡ map (updated id status attempts) s.rows)
unfolding update_rows
update_rows-rows id status attempts s = ground arith

module _ {codec : Codec} {key : String} where
  Keeps-append :
      {rows : List Row} (new : Row) → Keeps codec key rows → Keeps codec key (rows ++ new ∷ [])
  Keeps-append {rows} new kept = record {
    row = kept.row;
    payload = kept.payload;
    status = kept.status;
    has_row = select_key-kept key rows kept.row new kept.has_row;
    json = kept.json;
    known = kept.known;
  }

  Keeps-updated :
      {rows : List Row} (id : String) (status : JobStatus) (attempts : Option ℕ)
      → Keeps codec key rows
      → Keeps codec key (map (updated id (value status) attempts) rows)
  Keeps-updated {rows} id status attempts kept =
      let found = select_key-updated key id (value status) attempts rows kept.row kept.has_row in
      let same = updated-payload id (value status) attempts kept.row in
      elim (updated-status id (value status) attempts kept.row) [
        | inl e ↦ record {
          row = updated id (value status) attempts kept.row;
          payload = kept.payload;
          status = kept.status;
          has_row = found;
          json = rw same kept.json;
          known = rw e kept.known;
        }
        | inr e ↦ record {
          row = updated id (value status) attempts kept.row;
          payload = kept.payload;
          status = status;
          has_row = found;
          json = rw same kept.json;
          known = rw e (parse_status-value status);
        }
      ]

  Keeps-inserted :
      (job : Job) (s : Db)
      → Keeps codec key s.rows
      → Keeps codec key (transaction (insert_outbox codec job) s).1.rows
  Keeps-inserted job s kept = elim (Result-cases (row_of codec job)) [
    | inl (row, e) ↦ elim (transaction-insert_row-rows row s) [
      | inl same ↦ rw (insert_outbox-eq codec job row e, same) kept
      | inr more ↦ rw (insert_outbox-eq codec job row e, more) (Keeps-append row kept)
    ]
    | inr (x, e) ↦ rw (transaction-unencodable_rows codec job x s e) kept
  ]

  -- A key that has a readable row keeps one, whatever the store writes.
  pub Writes-Keeps : {s t : Db} → Writes codec s t → Keeps codec key s.rows → Keeps codec key t.rows
  unfolding update_status
  Writes-Keeps begins kept = kept
  Writes-Keeps (inserts {s} job before) kept = Keeps-inserted job s (Writes-Keeps before kept)
  Writes-Keeps (updates {s} id status attempts before) kept =
      elim (update_rows-rows id (value status) attempts s) [
        | inl same ↦ rw same (Writes-Keeps before kept)
        | inr e ↦ rw e (Keeps-updated id status attempts (Writes-Keeps before kept))
      ]
  Writes-Keeps (locks locked before) kept = Writes-Keeps before kept
