-- ===== src/Api/Request.antt =====
-- `EnqueueRequest` of api/main.py. Pydantic reads the types of the fields; a field that the body leaves
-- out takes its default, on which no validator runs.
pub mod Accepted
use Prim.Native.Char.{code}
use Prim.Native.String.{count, len}
use relayq.Prelude.{
  ℕ, ◌*◌, String, Bool, true, false, ◌&&◌, ◌||◌, Option, none, some, leb, ◌==◌, if◌then◌else◌,
}
use relayq.Domain.Json.{Json, obj, end}
use relayq.Domain.Job.{Codec}

-- The body of `POST /jobs`.
pub record Body : Type 0 where
  pub kind : String
  pub payload : Option Json
  pub queue : Option String
  pub idempotency_key : Option String
  pub max_retries : Option ℕ

pub record EnqueueRequest : Type 0 where
  pub kind : String
  pub payload : Json
  pub queue : String
  pub idempotency_key : Option String
  pub max_retries : ℕ

abbrev pub max_payload_bytes : ℕ
max_payload_bytes = 1024 * 1024

abbrev pub between : ℕ → ℕ → ℕ → Bool
between lo hi n = leb lo n && leb n hi

-- `[A-Za-z0-9_.-]`
unfoldable pub is_identifier_char : ℕ → Bool
is_identifier_char c =
    between b'A' b'Z' c
    || between b'a' b'z' c
    || between b'0' b'9' c
    || c == b'_'
    || c == b'.'
    || c == b'-'

unfoldable pub all_identifier_chars : String → Bool
unfolding is_identifier_char
all_identifier_chars String.[] = true
all_identifier_chars (String.◌∷◌ c s) = is_identifier_char (code c) && all_identifier_chars s

-- `re.fullmatch(r"[A-Za-z0-9_.-]{1,100}", value)`, and `min_length` and `max_length` before it.
unfoldable pub valid_identifier : String → Bool
unfolding all_identifier_chars
valid_identifier value = between 1 100 (count value) && all_identifier_chars value

-- `len(json.dumps(value, default=str).encode("utf-8")) <= MAX_PAYLOAD_BYTES`
unfoldable pub bounded_payload : Codec → Json → Bool
bounded_payload codec value = leb (len (codec.dumps value)) max_payload_bytes

abbrev pub if_given {ℓ} : {A : Type ℓ} → (A → Bool) → Option A → Bool
if_given test none = true
if_given test (some v) = test v

abbrev pub or_default {ℓ} : {A : Type ℓ} → A → Option A → A
or_default default none = default
or_default default (some v) = v

unfoldable pub valid : Codec → Body → Bool
valid codec body =
    valid_identifier body.kind
    && if_given (bounded_payload codec) body.payload
    && if_given valid_identifier body.queue
    && if_given (λ k. between 1 200 (count k)) body.idempotency_key
    && if_given (λ n. leb n 25) body.max_retries

-- `EnqueueRequest(**body)`; `none` is a `ValidationError`, which FastAPI answers with 422.
unfoldable pub parse_request : Codec → Body → Option EnqueueRequest
unfolding valid
parse_request codec body =
    if valid codec body
    then some (record {
      kind = body.kind;
      payload = or_default (obj end) body.payload;
      queue = or_default "default" body.queue;
      idempotency_key = body.idempotency_key;
      max_retries = or_default 3 body.max_retries;
    })
    else none
