-- ===== src/Api/Request/Accepted.antt =====
-- What a request that api/main.py accepts satisfies.
use Prim.Native.String.{count, len}
use relayq.Prelude.{◌≤◌, String, ◌≡◌, refl, true, false, some, arith}
use relayq.Domain.Json.{obj, end}
use relayq.Domain.Job.{Codec}
use relayq.Infrastructure.RedisStream.{stream_key, queue_of_key}
use relayq.Infrastructure.RedisStream.Names.{has_colon, queue_of_key-stream_key}
use relayq.Api.Request.{
  Body, EnqueueRequest, max_payload_bytes, all_identifier_chars, valid_identifier, bounded_payload,
  parse_request, if_given, between,
}

-- No identifier has a colon in it.
all_identifier_chars-has_colon : (s : String) → all_identifier_chars s ≡ true → has_colon s ≡ false
unfolding all_identifier_chars has_colon
all_identifier_chars-has_colon String.[] h = refl
all_identifier_chars-has_colon (String.◌∷◌ c s) h = ground (arith, all_identifier_chars-has_colon s)

valid_identifier-has_colon : (s : String) → valid_identifier s ≡ true → has_colon s ≡ false
unfolding valid_identifier
valid_identifier-has_colon s h = all_identifier_chars-has_colon s (ground arith)

default_identifier : valid_identifier "default" ≡ true
unfolding valid_identifier
default_identifier = refl

default_payload-le :
    (codec : Codec) → codec.dumps (obj end) ≡ "{}" → len (codec.dumps (obj end)) ≤ max_payload_bytes
default_payload-le codec e = rw e (omega arith)

-- An accepted request has an identifier for its kind and for its queue, at most 25 retries, and a
-- payload of at most 1 MB of JSON; its idempotency key, if it has one, is not empty. (`json.dumps` of the
-- empty dict, the default payload, is `{}`.)
pub parse_request-valid :
    (codec : Codec) (body : Body) (req : EnqueueRequest)
    → codec.dumps (obj end) ≡ "{}"
    → parse_request codec body ≡ some req
    → (valid_identifier req.kind ≡ true)
      × (valid_identifier req.queue ≡ true)
      × (req.max_retries ≤ 25)
      × (len (codec.dumps req.payload) ≤ max_payload_bytes)
      × (if_given (λ k. between 1 200 (count k)) req.idempotency_key ≡ true)
unfolding parse_request bounded_payload
parse_request-valid codec body req empty h =
    ground (arith, default_identifier, default_payload-le codec empty)

-- The key of the stream of an accepted request's queue gives the queue's name back to `list_queues`
-- (where `json.dumps` of the empty dict is `{}`).
pub parse_request-queue :
    (codec : Codec) (body : Body) (req : EnqueueRequest)
    → codec.dumps (obj end) ≡ "{}"
    → parse_request codec body ≡ some req
    → queue_of_key (stream_key "relayq" req.queue) ≡ some req.queue
parse_request-queue codec body req empty h =
    queue_of_key-stream_key "relayq" req.queue (unfold has_colon in refl)
      (valid_identifier-has_colon req.queue (parse_request-valid codec body req empty h).1)
