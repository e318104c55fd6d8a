-- ===== src/Infrastructure/RedisStream/Decode.antt =====
-- How relayq/infrastructure/redis_stream.py reads the entries of a reply: the loop that `read_group`
-- and `autoclaim_stale` share, and those of `read_dlq` and `read_dlq_entry`.
use relayq.Prelude.{
  String, Bool, true, false, Option, none, some, List, [], ◌∷◌, ◌++◌, str_eq, if◌then◌else◌,
}
use relayq.Effect.{
  Result, ok, err, or_raise, ◌>>=◌, key_error, value_error, json_decode_error, type_error,
  attribute_error,
}
use relayq.Domain.Json.{Json, str, obj, get}
use relayq.Domain.Job.{Codec, DateTime, Job, from_document}
use relayq.Infrastructure.Redis.{Wire, text, raw, Entry}
use relayq.Infrastructure.RedisStream.Keys.{queue_of_key, insert_name, add_name}

-- `fields.get(b"name")`
unfoldable pub get_raw : String → List (Wire × Wire) → Option Wire
get_raw name [] = none
get_raw name ((raw (some k), v) ∷ rest) = if str_eq k name then some v else get_raw name rest
get_raw name (_ ∷ rest) = get_raw name rest

-- `fields.get("name")`
unfoldable pub get_text : String → List (Wire × Wire) → Option Wire
get_text name [] = none
get_text name ((text k, v) ∷ rest) = if str_eq k name then some v else get_text name rest
get_text name (_ ∷ rest) = get_text name rest

abbrev or_else : Option Wire → Option Wire → Option Wire
or_else (some v) other = some v
or_else none other = other

-- `fields.get(b"name", fields.get("name"))`
unfoldable pub get_field : String → List (Wire × Wire) → Option Wire
unfolding get_raw get_text
get_field name fields = or_else (get_raw name fields) (get_text name fields)

-- `raw.decode("utf-8") if isinstance(raw, bytes) else raw`; `UnicodeDecodeError` is a `ValueError`.
unfoldable pub decode : Wire → Result String
decode (text s) = ok s
decode (raw (some s)) = ok s
decode (raw none) = err value_error

-- `Job.from_dict(json.loads(raw))`
unfoldable pub load_job : Codec → DateTime → String → Result Job
load_job codec now body = do
  document ← or_raise (codec.loads body) json_decode_error
  from_document codec now document

-- `except (json.JSONDecodeError, KeyError)`: the entry is skipped.
unfoldable pub skip_undecodable : {A : Type 0} → Result A → Result (Option A)
skip_undecodable (ok a) = ok (some a)
skip_undecodable (err json_decode_error) = ok none
skip_undecodable (err (key_error _)) = ok none
skip_undecodable (err e) = err e

-- The body of the `try`: the job and the decoded name of its stream.
unfoldable pub load_entry :
    Codec → DateTime → Wire → String → String → Result (String × String × Job)
unfolding load_job decode
load_entry codec now stream_name entry_id body = do
  job ← load_job codec now body
  stream ← decode stream_name
  ok (stream, entry_id, job)

unfoldable pub decode_entry :
    Codec → DateTime → Wire → Entry → Result (Option (String × String × Job))
unfolding get_field decode skip_undecodable load_entry
decode_entry codec now stream_name entry = elim (get_field "job" entry.fields) [
  | none ↦ ok none
  | some value ↦ do
    body ← decode value
    skip_undecodable (load_entry codec now stream_name entry.entry_id body)
]

abbrev pub prepend {ℓ} : {A : Type ℓ} → Option A → List A → List A
prepend none xs = xs
prepend (some x) xs = x ∷ xs

-- The loop over the entries of a stream: an exception ends it and drops the jobs read so far.
unfoldable pub decode_entries :
    Codec → DateTime → Wire → List Entry → Result (List (String × String × Job))
decode_entries codec now stream_name [] = ok []
decode_entries codec now stream_name (entry ∷ rest) = do
  job ← decode_entry codec now stream_name entry
  jobs ← decode_entries codec now stream_name rest
  ok (prepend job jobs)

unfoldable pub decode_streams :
    Codec → DateTime → List (Wire × List Entry) → Result (List (String × String × Job))
decode_streams codec now [] = ok []
decode_streams codec now ((stream_name, entries) ∷ rest) = do
  jobs ← decode_entries codec now stream_name entries
  more ← decode_streams codec now rest
  ok (jobs ++ more)

-- An item of `read_dlq`; `job` is the document, or the text that is none.
pub record DlqItem : Type 0 where
  pub entry_id : String
  pub job : Json
  pub reason : String

-- `json.loads(raw)` after the decoding; `json.loads(None)` is a `TypeError`.
unfoldable pub dlq_body : Option Wire → Result String
unfolding decode
dlq_body none = err type_error
dlq_body (some value) = decode value

abbrev or_unknown : Option Wire → Wire
or_unknown none = raw (some "unknown")
or_unknown (some value) = value

unfoldable pub dlq_reason : Entry → Result String
unfolding get_field decode
dlq_reason entry = decode (or_unknown (get_field "reason" entry.fields))

abbrev document_or_text : Option Json → String → Json
document_or_text none body = str body
document_or_text (some document) body = document

unfoldable pub dlq_item : Codec → Entry → Result DlqItem
unfolding get_field dlq_body dlq_reason decode
dlq_item codec entry = elim (get_field "job" entry.fields) [
  | none ↦ do reason ← dlq_reason entry; err type_error
  | some value ↦ do
    body ← decode value
    reason ← dlq_reason entry
    ok (record {
      entry_id = entry.entry_id;
      job = document_or_text (codec.loads body) body;
      reason = reason;
    })
]

unfoldable pub dlq_items : Codec → List Entry → Result (List DlqItem)
unfolding dlq_item
dlq_items codec [] = ok []
dlq_items codec (entry ∷ rest) = do
  item ← dlq_item codec entry
  items ← dlq_items codec rest
  ok (item ∷ items)

-- `job_dict.get("id") == job_id`; only a dict has `get`.
unfoldable pub has_job_id : String → Json → Result Bool
unfolding get
has_job_id job_id (obj d) = ok (elim (get "id" d) [ some (str s) ↦ str_eq s job_id | _ ↦ false ])
has_job_id job_id _ = err attribute_error

-- The loop of `read_dlq_entry`: the first entry whose document has the id.
unfoldable pub find_job : Codec → String → List Entry → Result (Option DlqItem)
unfolding get_field dlq_body dlq_reason has_job_id
find_job codec job_id [] = ok none
find_job codec job_id (entry ∷ rest) = do
  body ← dlq_body (get_field "job" entry.fields)
  elim (codec.loads body) [
    | none ↦ find_job codec job_id rest
    | some document ↦ do
      hit ← has_job_id job_id document
      elim hit [
        | false ↦ find_job codec job_id rest
        | true ↦ do
          reason ← dlq_reason entry
          ok (some (record { entry_id = entry.entry_id; job = document; reason = reason }))
      ]
  ]

-- The loop of `list_queues` over the keys of a reply.
unfoldable pub add_keys : List Wire → List String → Result (List String)
unfolding decode queue_of_key insert_name
add_keys [] queues = ok queues
add_keys (key ∷ keys) queues = do
  name ← decode key
  add_keys keys (add_name (queue_of_key name) queues)
