-- ===== src/Domain/Job.antt =====
-- relayq/domain/job.py. Times are microseconds; Python's `int` fields are counts.
pub mod RoundTrip
use relayq.Prelude.{ℕ, String, Bool, Option, none, some, ltb, str_eq, if◌then◌else◌}
use relayq.Effect.{
  Result, ok, err, ◌>>=◌, attribute_error, key_error, value_error, type_error, untyped_field,
}
use relayq.Domain.Json.{Json, null, num, str, obj, Fields, end, field, get}

abbrev pub DateTime : Type 0
DateTime = ℕ

-- The `json` module and `datetime`'s ISO format, on what the program hands them. `none` is a
-- `JSONDecodeError`, and the `ValueError` of `fromisoformat`.
pub record Codec : Type 0 where
  pub dumps : Json → String
  pub loads : String → Option Json
  pub isoformat : DateTime → String
  pub fromisoformat : String → Option DateTime

pub data JobStatus : Type 0 where
  pending processing completed failed dead : JobStatus

-- `JobStatus.value`
unfoldable pub value : JobStatus → String
value pending = "pending"
value processing = "processing"
value completed = "completed"
value failed = "failed"
value dead = "dead"

-- `JobStatus(text)`
unfoldable pub parse_status : String → Result JobStatus
parse_status s =
    if str_eq s "pending"
    then ok pending
    else if str_eq s "processing"
    then ok processing
    else if str_eq s "completed"
    then ok completed
    else if str_eq s "failed"
    then ok failed
    else if str_eq s "dead"
    then ok dead
    else err value_error

-- What the `status` attribute holds: a member of the enum, or a plain `str` that code assigned.
pub data StatusField : Type 0 where
  member : JobStatus → StatusField
  plain : String → StatusField

-- `self.status.value`: a plain `str` has no attribute `value`.
unfoldable pub status_value : StatusField → Result String
unfolding value
status_value (member s) = ok (value s)
status_value (plain text) = err attribute_error

pub record Job : Type 0 where
  pub id : String
  pub kind : String
  pub payload : Json
  pub status : StatusField
  pub created_at : DateTime
  pub attempts : ℕ
  pub max_retries : ℕ
  pub idempotency_key : Option String
  pub queue : String

-- `Job(id=…, kind=…)` with the class's defaults, at the time `now`.
unfoldable pub new : String → String → DateTime → Job
new id kind now = record {
  id = id;
  kind = kind;
  payload = obj end;
  status = member pending;
  created_at = now;
  attempts = 0;
  max_retries = 3;
  idempotency_key = none;
  queue = "default";
}

abbrev pub optional_str : Option String → Json
optional_str none = null
optional_str (some s) = str s

unfoldable pub to_dict : Codec → Job → Result Fields
unfolding status_value
to_dict codec self = do
  status ← status_value self.status
  ok (
      field "id" (str self.id) (
        field "kind" (str self.kind) (
          field "payload" self.payload (
            field "status" (str status) (
              field "created_at" (str (codec.isoformat self.created_at)) (
                field "attempts" (num self.attempts) (
                  field "max_retries" (num self.max_retries) (
                    field "idempotency_key" (optional_str self.idempotency_key)
                      (field "queue" (str self.queue) end)))))))))

-- A field as text, with `d.get`'s default where the key is missing.
unfoldable pub text_or : String → String → Option Json → Result String
text_or key fallback none = ok fallback
text_or key fallback (some (str s)) = ok s
text_or key fallback (some _) = err (untyped_field key)

unfoldable pub count_or : String → ℕ → Option Json → Result ℕ
count_or key fallback none = ok fallback
count_or key fallback (some (num n)) = ok n
count_or key fallback (some _) = err (untyped_field key)

unfoldable pub key_or_none : Option Json → Result (Option String)
key_or_none none = ok none
key_or_none (some null) = ok none
key_or_none (some (str s)) = ok (some s)
key_or_none (some _) = err (untyped_field "idempotency_key")

-- `d["id"]`
unfoldable pub required_id : Option Json → Result String
required_id none = err (key_error "id")
required_id (some (str s)) = ok s
required_id (some _) = err (untyped_field "id")

-- `JobStatus(d.get("status", "pending"))`: no value but the five texts is a member.
unfoldable pub status_or_pending : Option Json → Result StatusField
unfolding parse_status
status_or_pending none = ok (member pending)
status_or_pending (some (str s)) = do member_of ← parse_status s; ok (member member_of)
status_or_pending (some _) = err value_error

unfoldable pub or_value_error : Option DateTime → Result DateTime
or_value_error none = err value_error
or_value_error (some t) = ok t

-- `datetime.fromisoformat(d["created_at"]) if "created_at" in d else datetime.now(timezone.utc)`
unfoldable pub created_or_now : Codec → DateTime → Option Json → Result DateTime
unfolding or_value_error
created_or_now codec now none = ok now
created_or_now codec now (some (str s)) = or_value_error (codec.fromisoformat s)
created_or_now codec now (some _) = err type_error

unfoldable pub payload_or_empty : Option Json → Json
payload_or_empty none = obj end
payload_or_empty (some v) = v

unfoldable pub from_dict : Codec → DateTime → Fields → Result Job
unfolding get text_or count_or key_or_none required_id status_or_pending created_or_now
    payload_or_empty
from_dict codec now d = do
  id ← required_id (get "id" d)
  kind ← text_or "kind" "" (get "kind" d)
  status ← status_or_pending (get "status" d)
  created_at ← created_or_now codec now (get "created_at" d)
  attempts ← count_or "attempts" 0 (get "attempts" d)
  max_retries ← count_or "max_retries" 3 (get "max_retries" d)
  idempotency_key ← key_or_none (get "idempotency_key" d)
  queue ← text_or "queue" "default" (get "queue" d)
  ok (record {
    id = id;
    kind = kind;
    payload = payload_or_empty (get "payload" d);
    status = status;
    created_at = created_at;
    attempts = attempts;
    max_retries = max_retries;
    idempotency_key = idempotency_key;
    queue = queue;
  })

-- `Job.from_dict(json.loads(text))`, where a document that is no dict has no string keys.
unfoldable pub from_document : Codec → DateTime → Json → Result Job
from_document codec now (obj d) = from_dict codec now d
from_document codec now _ = err type_error

-- The job has exhausted its retry budget.
unfoldable pub should_dlq : Job → Bool
should_dlq self = ltb self.max_retries self.attempts
