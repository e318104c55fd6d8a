-- ===== src/Tests/Server.antt =====
-- A small Redis server and a codec of a few documents, to run the model on.
use relayq.Prelude.{
  String, Bool, false, Option, none, some, List, [], ◌∷◌, ◌++◌, str_eq, length, ◌==◌, if◌then◌else◌,
}
use relayq.Effect.{Result, ok, err, connection_error}
use relayq.Domain.Json.{Json, Fields, obj, str, num, field, end}
use relayq.Domain.Job.{Codec, Job, new}
use relayq.Infrastructure.Redis.{Redis, Wire, raw, text, Entry}
use relayq.Infrastructure.RedisStream.{Transport}
use relayq.Infrastructure.SqliteStore.{Db, Row, idle}
use relayq.System.{System}

-- The entries of all streams, oldest first, each with its key; the acknowledged entries; and whether the
-- server answers.
pub record Server : Type 0 where
  pub entries : List (String × Entry)
  pub acked : List String
  pub down : Bool

abbrev pub of_key : String → List (String × Entry) → List Entry
of_key key [] = []
of_key key ((k, e) ∷ rest) = if str_eq k key then e ∷ of_key key rest else of_key key rest

abbrev pub wired : List (String × String) → List (Wire × Wire)
wired [] = []
wired ((k, v) ∷ rest) = (text k, text v) ∷ wired rest

abbrev pub keys_of : List (String × Entry) → List Wire
keys_of [] = []
keys_of ((k, e) ∷ rest) = raw (some k) ∷ keys_of rest

abbrev pub answer : {A : Type 0} → A → Server → Server → Result A × Server
answer a before after = if before.down then (err connection_error, before) else (ok a, after)

abbrev pub server : Redis Server
server = record {
  xlen = λ key s. answer (length (of_key key s.entries)) s s;
  xadd = λ key body maxlen approximate s. answer "1-0" s (record s {
    entries = s.entries ++ (key, record { entry_id = "1-0"; fields = wired body }) ∷ [];
  });
  xack = λ stream group id s. answer 1 s (record s { acked = id ∷ s.acked });
  xgroup_create = λ stream group id mkstream s. answer tt s s;
  xreadgroup = λ group consumer stream id count block s.
      answer ((text stream, of_key stream s.entries) ∷ []) s s;
  xautoclaim =
      λ stream group consumer idle start count s. answer (some (of_key stream s.entries)) s s;
  xrevrange = λ key end start count s. answer (of_key key s.entries) s s;
  xdel = λ key id s. answer tt s s;
  scan = λ cursor pattern count s. answer (0, keys_of s.entries) s s;
}

-- A dead letter's document, as a worker wrote it.
abbrev pub dead_document : Json
dead_document =
    obj (field "id" (str "job_1") (field "kind" (str "ping") (field "attempts" (num 4) end)))

-- A document whose status no version of `JobStatus` has.
abbrev pub lost_fields : Fields
lost_fields = field "id" (str "job_2") (field "status" (str "lost") end)

abbrev pub documents : String → Option Json
documents t =
    if str_eq t "{}"
    then some (obj end)
    else if str_eq t "{job}"
    then some dead_document
    else if str_eq t "{lost}"
    then some (obj lost_fields)
    else none

abbrev pub codec : Codec
codec = record {
  dumps = λ v. elim v [ obj d ↦ elim d [ end ↦ "{}" | _ ↦ "{job}" ] | _ ↦ "null" ];
  loads = documents;
  isoformat = λ t. if t == 5 then "1970-01-01T00:00:05+00:00" else "1970-01-01T00:00:00+00:00";
  fromisoformat = λ t. if str_eq t "1970-01-01T00:00:05+00:00" then some 5 else some 0;
}

abbrev pub transport : Transport Server
transport = record { redis = server; prefix = "relayq"; codec = codec }

abbrev pub empty_server : Server
empty_server = record { entries = []; acked = []; down = false }

abbrev pub empty_db : Db
empty_db = record { rows = []; txn = idle; locked = false }

abbrev pub job : Job
job = new "job_1" "ping" 5

-- A process with an outbox, and one without.
abbrev pub with_store : System Server
with_store = record {
  redis = empty_server;
  store = some empty_db;
  metrics = [];
  monotonic = 0;
  utcnow = 7;
}

abbrev pub without_store : System Server
without_store = record {
  redis = empty_server;
  store = none;
  metrics = [];
  monotonic = 0;
  utcnow = 7;
}

-- The job with an idempotency key, its row, and an outbox that has it.
abbrev pub keyed_job : Job
keyed_job = record job { idempotency_key = some "key" }

abbrev pub job_row : Row
job_row = record {
  id = "job_1";
  kind = "ping";
  payload = "{}";
  status = "pending";
  created_at = "1970-01-01T00:00:05+00:00";
  attempts = 0;
  max_retries = 3;
  idempotency_key = some "key";
  queue = "default";
}

abbrev pub full_db : Db
full_db = record empty_db { rows = job_row ∷ [] }
