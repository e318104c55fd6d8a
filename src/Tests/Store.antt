-- ===== src/Tests/Store.antt =====
-- Tests of relayq/infrastructure.
use relayq.Prelude.{arith, List, String, ◌≡◌, refl, false, none, some, [], ◌∷◌}
use relayq.Effect.{ok, err, operational_error, integrity_error}
use relayq.Domain.Json.{Fields, str, num, null, end, field, obj}
use relayq.Domain.Job.{new, pending, completed}
use relayq.Infrastructure.Redis.{Entry, text, raw}
use relayq.Infrastructure.RedisStream.{list_queues, decode, stream_key}
use relayq.Infrastructure.SqliteStore.{insert_outbox, update_status, transaction, get_job}
use relayq.Infrastructure.SqliteStore.Valid.{IsValid, store-IsValid}
use relayq.Infrastructure.SqliteStore.Outbox.{
  transaction-insert_outbox, get_job-insert_outbox, transaction-update_status,
}
use relayq.Infrastructure.RedisStream.Listing.{last, listed, pages_have, list_queues_lem}
use relayq.Tests.Server.{
  empty_server, keys_of, Server, codec, transport, job, empty_db, job_row, keyed_job, full_db,
}

store-IsValid_example :
    IsValid (transaction (insert_outbox codec job) empty_db).1
    × IsValid (update_status "job_1" completed (some 2) empty_db).1
store-IsValid_example =
    store-IsValid codec job "job_1" completed (some 2) empty_db (record { rows = tt; saved = tt })

-- The second insert of an id is rolled back.
second_insert :
    (transaction (insert_outbox codec keyed_job) full_db) ≡ (err integrity_error, full_db)
unfolding transaction insert_outbox new
second_insert = refl

transaction-insert_outbox_example :
    ((transaction (insert_outbox codec keyed_job) empty_db).1 ≡ full_db)
    × (false ≡ false)
    × (false ≡ false)
unfolding transaction insert_outbox new
transaction-insert_outbox_example =
    transaction-insert_outbox codec keyed_job job_row empty_db refl refl

get_job-insert_outbox_example :
    (get_job codec 9 "job_1" (transaction (insert_outbox codec keyed_job) empty_db).1).0
    ≡ ok (some (record keyed_job { created_at = 9 }))
unfolding transaction insert_outbox new
get_job-insert_outbox_example =
    get_job-insert_outbox codec 9 keyed_job pending empty_db refl refl refl refl

transaction-update_status_example :
    ((update_status "job_1" completed none full_db).0 ≡ ok tt)
    × (transaction (insert_outbox codec job) (update_status "job_1" completed none full_db).1
        ≡ (err operational_error, (update_status "job_1" completed none full_db).1))
transaction-update_status_example =
    transaction-update_status "job_1" completed none (insert_outbox codec job) full_db refl refl

abbrev mail : String
mail = "mail"

-- Entries of a client that does not decode replies, and of one that does.
abbrev dead_entry : Entry
dead_entry = record { entry_id = "1-0"; fields = (raw (some "job"), raw (some "{job}")) ∷ [] }

abbrev lost_entry : Entry
lost_entry = record { entry_id = "2-0"; fields = (text "job", text "{lost}") ∷ [] }

-- The dictionary of `job`, and a transport whose codec reads it back.
abbrev pub job_fields : Fields
job_fields = field "id" (str "job_1") (
    field "kind" (str "ping") (
      field "payload" (obj end) (
        field "status" (str "pending") (
          field "created_at" (str "1970-01-01T00:00:05+00:00") (
            field "attempts" (num 0) (
              field "max_retries" (num 3)
                (field "idempotency_key" null (field "queue" (str "default") end))))))))

-- A server with the stream and the DLQ of one queue.
abbrev one_queue : Server
one_queue = record empty_server {
  entries =
      ("relayq:mail:stream", lost_entry)
      ∷ ("relayq:mail:dlq", dead_entry)
      ∷ ("relayq", lost_entry)
      ∷ [];
}

list_queues_lem_example :
    (out : List String) × (list_queues transport 4 one_queue ≡ (ok (some out), one_queue))
    × ((q : String) → listed q out ≡ pages_have q (keys_of one_queue.entries ∷ []))
unfolding stream_key decode
list_queues_lem_example =
    list_queues_lem transport 4 (last refl)
      ((("relayq:mail:stream", refl), (("relayq:mail:dlq", refl), (("relayq", refl), tt))), tt)
      (omega arith)
