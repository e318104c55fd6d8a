-- ===== src/Tests/Api.antt =====
-- Tests of api/main.py.
use Prim.Native.String.{count, len}
use relayq.Prelude.{◌≤◌, ◌≡◌, refl, true, false, none, some, [], ◌∷◌}
use relayq.Effect.{Exception, err, ok}
use relayq.Domain.Json.{obj, end}
use relayq.Domain.Job.{Job, new, from_document, from_dict}
use relayq.Infrastructure.Redis.{text}
use relayq.Infrastructure.RedisStream.{
  list_queues, add_keys, read_dlq, DlqItem, stream_key, dlq_key, queue_of_key, read_dlq_entry,
  stream_length,
}
use relayq.System.{System}
use relayq.Api.RateLimit.{Bucket, TokenBucketRateLimiter, allow}
use relayq.Api.Request.{
  Body, EnqueueRequest, max_payload_bytes, valid_identifier, valid, if_given, between,
  parse_request,
}
use relayq.Api.Request.Accepted.{parse_request-valid, parse_request-queue}
use relayq.Api.Endpoints.{Globals, replay_dlq_job, enqueue_job, get_queues, queues}
use relayq.Api.Endpoints.Replay.{replay_never_succeeds}
use relayq.Tests.Server.{
  server, Server, transport, codec, without_store, empty_server, dead_document, job,
}
use relayq.Infrastructure.Redis.Log.{Log}
use relayq.Application.Enqueue.{Enqueuer}
use relayq.Tests.LogServer.{empty_log}
use relayq.Tests.Queue.{reading_log}

-- Two requests a second, with bursts of five.
abbrev limiter : TokenBucketRateLimiter
limiter = record { rate = 2; capacity = 5 }

abbrev empty_bucket : Bucket
empty_bucket = record { tokens = some 0; last_refill = some 10 }

denied : allow limiter 1 10 empty_bucket ≡ (false, empty_bucket)
unfolding allow
denied = refl

abbrev body : Body
body = record {
  kind = "ping";
  payload = none;
  queue = some "mail.eu-1";
  idempotency_key = some "key";
  max_retries = none;
}

abbrev request : EnqueueRequest
request = record {
  kind = "ping";
  payload = obj end;
  queue = "mail.eu-1";
  idempotency_key = some "key";
  max_retries = 3;
}

refused_colon : parse_request codec (record body { queue = some "a:b" }) ≡ none
unfolding parse_request valid valid_identifier
refused_colon = refl

parse_request-valid_example :
    (valid_identifier "ping" ≡ true)
    × (valid_identifier "mail.eu-1" ≡ true)
    × (3 ≤ 25)
    × (len (codec.dumps (obj end)) ≤ max_payload_bytes)
    × (if_given (λ k. between 1 200 (count k)) (some "key") ≡ true)
unfolding parse_request valid_identifier
parse_request-valid_example = parse_request-valid codec body request refl refl

parse_request-queue_example : queue_of_key (stream_key "relayq" "mail.eu-1") ≡ some "mail.eu-1"
unfolding parse_request valid_identifier
parse_request-queue_example = parse_request-queue codec body request refl refl

-- A DLQ with one dead letter.
abbrev dead_server : Server
dead_server = record empty_server {
  entries =
      (
        "relayq:default:dlq",
        record {
          entry_id = "9-0";
          fields = (text "job", text "{job}") ∷ (text "reason", text "boom") ∷ [];
        },
      )
      ∷ [];
}

abbrev app : Globals Server
app = record {
  transport = some transport;
  enqueuer = some (record { transport = transport; max_queue_depth = 100 });
  redis_client = some server;
}

abbrev before : System Server
before = record without_store { redis = dead_server }

abbrev item : DlqItem
item = record { entry_id = "9-0"; job = dead_document; reason = "boom" }

abbrev dead_job : Job
dead_job = record (new "job_1" "ping" 7) { attempts = 4 }

replay_never_succeeds_example :
    (e : Exception) × ((replay_dlq_job app "default" "job_1" before).0 ≡ err e)
    × ((replay_dlq_job app "default" "job_1" before).1.redis ≡ dead_server)
unfolding read_dlq_entry from_document from_dict new stream_length stream_key dlq_key
replay_never_succeeds_example =
    replay_never_succeeds app transport (record { transport = transport; max_queue_depth = 100 })
      "default" "job_1" item dead_job 0 before dead_server dead_server refl refl refl refl refl

abbrev closed_app : Globals Server
closed_app = record {
  transport = some transport;
  enqueuer = some (record { transport = transport; max_queue_depth = 0 });
  redis_client = none;
}

-- A request to a process as `lifespan` builds it.
abbrev log_enqueuer : Enqueuer Log
log_enqueuer = record { transport = reading_log; max_queue_depth = 100 }

abbrev log_app : Globals Log
log_app = record {
  transport = some reading_log;
  enqueuer = some log_enqueuer;
  redis_client = some reading_log.redis;
}

abbrev plain_request : EnqueueRequest
plain_request = record request { queue = "default"; idempotency_key = none }

abbrev asking : System Log
asking = record { redis = empty_log; store = none; metrics = []; monotonic = 0; utcnow = 5 }

abbrev asked : System Log
asked = (enqueue_job log_app "job_1" plain_request asking).1

abbrev much_later : System Log
much_later = record asked { utcnow = 90; redis = empty_log }

-- The test server answers SCAN with all its keys, whatever the pattern.
two_keys :
    (get_queues app 1 before).0
    ≡ ok (some (queues (record { name = "default"; depth = 0; dead_letter_count = 1 } ∷ [])))
unfolding get_queues list_queues add_keys stream_length read_dlq stream_key dlq_key
two_keys = refl
