-- ===== src/Api/Endpoints.antt =====
-- The endpoints of api/main.py, on the state that `lifespan` sets up. An exception that
-- an endpoint lets through is FastAPI's 500; an `HTTPException` is a `Reply`.
pub mod Replay
pub mod Lookup
use relayq.Prelude.{ℕ, String, Option, none, some, List, [], ◌∷◌, length}
use relayq.Effect.{Exception, Result, ok, err, queue_full, idempotency_conflict}
use relayq.Effect.Action.{Action, ◌>>=◌, ◌>>◌, pure, lift, raise}
use relayq.Domain.Json.{Json}
use relayq.Domain.Job.{
  Codec, Job, StatusField, member, plain, pending, new, from_document, status_value,
}
use relayq.Infrastructure.SqliteStore.{get_job}
use relayq.Infrastructure.RedisStream.{
  Transport, DlqItem, stream_length, dlq_key, list_queues, read_dlq, read_dlq_entry,
  delete_dlq_entry,
}
use relayq.Infrastructure.Redis.{Redis}
use relayq.System.{System, on_redis, if_store}
use relayq.Application.Enqueue.{Enqueuer, enqueue}
use relayq.Api.Request.{EnqueueRequest}

-- The module's globals, which are `None` before `lifespan` has run.
pub record Globals (R : Type 0) : Type 0 where
  pub transport : Option (Transport R)
  pub enqueuer : Option (Enqueuer R)
  pub redis_client : Option (Redis R)

-- `oldest_job_age_seconds` is 0.0 in every answer.
pub record QueueStats : Type 0 where
  pub name : String
  pub depth : ℕ
  pub dead_letter_count : ℕ

pub data Reply : Type 0 where
  -- 201 and 200, with what the endpoint returns
  enqueued : String → String → Reply
  replayed : String → String → Reply
  queues : List QueueStats → Reply
  dead_letters : String → List DlqItem → ℕ → Reply
  job_found : Job → String → Reply
  status_unknown : String → Reply
  -- `HTTPException`: its status code, and the exception in its detail
  unavailable : Reply
  not_found : String → Reply
  refused : ℕ → Exception → Reply

-- `except QueueFull` is 503 and `except IdempotencyConflict` 409; the others pass.
unfoldable pub reply_to : String → Result String → Result Reply
reply_to job_id (ok entry_id) = ok (enqueued job_id entry_id)
reply_to job_id (err (queue_full queue depth limit)) =
    ok (refused 503 (queue_full queue depth limit))
reply_to job_id (err (idempotency_conflict key)) = ok (refused 409 (idempotency_conflict key))
reply_to job_id (err e) = err e

-- No `validate` hook is passed.
abbrev pub no_validation : Job → Result (Unit {0})
no_validation job = ok tt

abbrev status_reply : Job → Result String → Result Reply
status_reply job (ok status) = ok (job_found job status)
status_reply job (err e) = err e

-- The answer of `get_job_status` to what the store returned.
unfoldable pub found_reply : String → Result (Option Job) → Result Reply
unfolding status_value
found_reply job_id (ok none) = ok (not_found job_id)
found_reply job_id (ok (some job)) = status_reply job (status_value job.status)
found_reply job_id (err e) = err e

-- `job.status = "pending"; job.attempts = 0`: the status becomes a plain `str`.
abbrev pub reset : Job → Job
reset job = record job { status = plain "pending"; attempts = 0 }

module _ {R : Type 0} where
  -- The new job of a request; `job_id` is the `uuid4` of its default.
  unfoldable pub job_of_request : String → EnqueueRequest → System R → Job
  unfolding new
  job_of_request job_id req s = record (new job_id req.kind s.utcnow) {
    payload = req.payload;
    queue = req.queue;
    max_retries = req.max_retries;
  }

  enqueue_request : Option (Enqueuer R) → String → EnqueueRequest → Action (System R) Reply
  enqueue_request none job_id req s = (ok unavailable, s)
  enqueue_request (some enqueuer) job_id req s =
      let (r, s') =
        enqueue enqueuer no_validation (job_of_request job_id req s) req.idempotency_key s in
      (reply_to job_id r, s')

  -- `POST /jobs`
  unfoldable pub enqueue_job : Globals R → String → EnqueueRequest → Action (System R) Reply
  unfolding enqueue_request reply_to
  enqueue_job app job_id req = enqueue_request app.enqueuer job_id req

  -- Without a store the answer is 200 with the status "unknown".
  look_up : Option (Enqueuer R) → String → Action (System R) Reply
  look_up none job_id s = (ok (status_unknown job_id), s)
  look_up (some enqueuer) job_id s = elim s.store [
    | none ↦ (ok (status_unknown job_id), s)
    | some db ↦ (found_reply job_id (get_job enqueuer.transport.codec s.utcnow job_id db).0, s)
  ]

  -- `GET /jobs/{job_id}`
  unfoldable pub get_job_status : Globals R → String → Action (System R) Reply
  unfolding look_up found_reply
  get_job_status app job_id = look_up app.enqueuer job_id

  dlq_count : Option (Redis R) → String → Action R ℕ
  dlq_count none key = pure 0
  dlq_count (some client) key = client.xlen key

  -- The loop over the names; the entries that `read_dlq` returns are not used.
  queue_stats : Option (Redis R) → Transport R → List String → Action R (List QueueStats)
  unfolding dlq_count
  queue_stats client transport [] = pure []
  queue_stats client transport (name ∷ names) = do
    depth ← stream_length transport name
    dlq_entries ← read_dlq transport name "-" "+" 0
    count ← dlq_count client (dlq_key transport.prefix name)
    stats ← queue_stats client transport names
    pure (record { name = name; depth = depth; dead_letter_count = count } ∷ stats)

  stats_reply : Option (Redis R) → Transport R → Option (List String) → Action R (Option Reply)
  unfolding queue_stats
  stats_reply client transport none = pure none
  stats_reply client transport (some names) = do
    stats ← queue_stats client transport names
    pure (some (queues stats))

  list_all : Globals R → Option (Transport R) → ℕ → Action R (Option Reply)
  unfolding stats_reply
  list_all app none rounds = pure (some unavailable)
  list_all app (some transport) rounds = do
    names ← list_queues transport rounds
    stats_reply app.redis_client transport names

  -- `GET /queues`; `none` if the scan of the keys has not ended after `rounds` rounds.
  unfoldable pub get_queues : Globals R → ℕ → Action (System R) (Option Reply)
  unfolding list_all
  get_queues app rounds = on_redis (list_all app app.transport rounds)

  list_entries : Option (Transport R) → String → ℕ → Action (System R) Reply
  list_entries none name limit = pure unavailable
  list_entries (some transport) name limit = do
    entries ← on_redis (read_dlq transport name "-" "+" limit)
    pure (dead_letters name entries (length entries))

  -- `GET /queues/{name}/dlq`
  unfoldable pub list_dlq : Globals R → String → ℕ → Action (System R) Reply
  unfolding list_entries
  list_dlq app name limit = list_entries app.transport name limit

  unfoldable pub replay_entry :
      Transport R → Enqueuer R → String → String → Option DlqItem → Action (System R) Reply
  replay_entry transport enqueuer name job_id none s = (ok (not_found job_id), s)
  replay_entry transport enqueuer name job_id (some entry) s =
      (do
        job ← lift (from_document transport.codec s.utcnow entry.job)
        entry_id ← enqueue enqueuer no_validation (reset job) none
        on_redis (delete_dlq_entry transport name entry.entry_id)
        pure (replayed job.id entry_id))
        s

  replay_ready :
      Option (Transport R) → Option (Enqueuer R) → String → String → Action (System R) Reply
  unfolding replay_entry
  replay_ready (some transport) (some enqueuer) name job_id = do
    entry ← on_redis (read_dlq_entry transport name job_id)
    replay_entry transport enqueuer name job_id entry
  replay_ready _ _ name job_id = pure unavailable

  -- `POST /queues/{name}/dlq/{job_id}/replay`
  unfoldable pub replay_dlq_job : Globals R → String → String → Action (System R) Reply
  unfolding replay_ready
  replay_dlq_job app name job_id = replay_ready app.transport app.enqueuer name job_id
