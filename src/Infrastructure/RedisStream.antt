-- ===== src/Infrastructure/RedisStream.antt =====
-- relayq/infrastructure/redis_stream.py, over the commands of `Redis` and the codec of `json`.
mod Keys
mod Decode
pub mod Names
pub mod Delivery
pub mod Poison
pub mod DeadLetters
pub mod Listing
pub mod Fifo
unfoldable pub use Keys.{
  stream_key, group_key, dlq_key, consumer_name, queue_of_key, insert_name, add_name,
}
unfoldable pub use Decode.*
use package.text.Mathlib.Text.{find?}
use relayq.Prelude.{
  ℕ, zero, suc, String, Bool, true, false, Option, none, some, List, [], ◌∷◌, if◌then◌else◌,
}
use relayq.Effect.{Exception, Result, ok, err, response_error}
use relayq.Effect.Action.{Action, ◌>>=◌, ◌>>◌, pure, lift, raise, skip}
use relayq.Domain.Json.{str}
use relayq.Domain.Job.{Codec, DateTime, Job, to_dict}
use relayq.Domain.Json.{obj}
use relayq.Infrastructure.Redis.{Redis, Wire, text, raw, Entry}

-- The transport: its client, its prefix, and the codec of the modules `json` and `datetime`.
pub record Transport (R : Type 0) : Type 0 where
  pub redis : Redis R
  pub prefix : String
  pub codec : Codec

module _ {R : Type 0} (self : Transport R) where
  -- `"BUSYGROUP" not in str(exc)` is raised again; an exception of another class is not caught.
  unfoldable pub swallow_busygroup : Exception → Action R (Unit {0})
  swallow_busygroup (response_error message) = elim (find? message "BUSYGROUP") [
    | none ↦ raise (response_error message)
    | some _ ↦ skip
  ]
  swallow_busygroup e = raise e

  abbrev on_error : Result (Unit {0}) → Action R (Unit {0})
  on_error (ok _) = skip
  on_error (err e) = swallow_busygroup e

  unfoldable pub ensure_group : String → Action R (Unit {0})
  unfolding swallow_busygroup
  ensure_group queue s =
      let (r, s') =
        self.redis.xgroup_create (stream_key self.prefix queue) (group_key self.prefix queue) "0"
          true s in
      on_error r s'

  unfoldable pub stream_length : String → Action R ℕ
  stream_length queue = self.redis.xlen (stream_key self.prefix queue)

  -- `maxlen` and `approximate` are sent only if `maxlen` is not 0.
  abbrev sent_maxlen : ℕ → Option ℕ
  sent_maxlen zero = none
  sent_maxlen (suc n) = some (suc n)

  abbrev sent_approximate : ℕ → Bool → Bool
  sent_approximate zero approximate = false
  sent_approximate (suc n) approximate = approximate

  -- `json.dumps(job.to_dict(), default=str)`
  unfoldable pub job_body : Job → Result String
  unfolding to_dict
  job_body job = elim (to_dict self.codec job) [
    | ok d ↦ ok (self.codec.dumps (obj d))
    | err e ↦ err e
  ]

  unfoldable pub xadd : String → Job → ℕ → Bool → Action R String
  unfolding job_body
  xadd queue job maxlen approximate = do
    body ← lift (job_body job)
    self.redis.xadd (stream_key self.prefix queue) (("job", body) ∷ []) (sent_maxlen maxlen)
        (sent_approximate maxlen approximate)

  -- The body of a dead letter.
  unfoldable pub dlq_fields : Job → String → Result (List (String × String))
  unfolding to_dict
  dlq_fields job reason = elim (to_dict self.codec job) [
    | ok d ↦ ok (
        ("job", self.codec.dumps (obj d))
        ∷ ("reason", reason)
        ∷ ("dlqed_at", self.codec.dumps (str (self.codec.isoformat job.created_at)))
        ∷ [])
    | err e ↦ err e
  ]

  unfoldable pub xadd_dlq : String → Job → String → Action R String
  unfolding dlq_fields
  xadd_dlq queue job reason = do
    fields ← lift (dlq_fields job reason)
    self.redis.xadd (dlq_key self.prefix queue) fields none false

  unfoldable pub read_group :
      DateTime → String → String → ℕ → ℕ → Action R (List (String × String × Job))
  unfolding decode_streams
  read_group now queue worker_id count block_ms = do
    results ←
        self.redis.xreadgroup (group_key self.prefix queue) (consumer_name worker_id)
          (stream_key self.prefix queue) ">" count block_ms
    lift (decode_streams self.codec now results)

  unfoldable pub xack : String → String → Action R ℕ
  xack queue entry_id =
      self.redis.xack (stream_key self.prefix queue) (group_key self.prefix queue) entry_id

  abbrev pub claimed :
      DateTime → String → Option (List Entry) → Result (List (String × String × Job))
  claimed now stream none = ok []
  claimed now stream (some entries) = decode_entries self.codec now (text stream) entries

  unfoldable pub autoclaim_stale :
      DateTime → String → String → ℕ → ℕ → Action R (List (String × String × Job))
  unfolding decode_entries
  autoclaim_stale now queue worker_id min_idle_ms count = do
    result ←
        self.redis.xautoclaim (stream_key self.prefix queue) (group_key self.prefix queue)
          (consumer_name worker_id) min_idle_ms "0-0" count
    lift (claimed now (stream_key self.prefix queue) result)

  unfoldable pub read_dlq : String → String → String → ℕ → Action R (List DlqItem)
  unfolding dlq_items
  read_dlq queue start end count = do
    entries ← self.redis.xrevrange (dlq_key self.prefix queue) end start count
    lift (dlq_items self.codec entries)

  unfoldable pub read_dlq_entry : String → String → Action R (Option DlqItem)
  unfolding find_job
  read_dlq_entry queue job_id = do
    entries ← self.redis.xrevrange (dlq_key self.prefix queue) "+" "-" 200
    lift (find_job self.codec job_id entries)

  unfoldable pub delete_dlq_entry : String → String → Action R (Unit {0})
  delete_dlq_entry queue entry_id = self.redis.xdel (dlq_key self.prefix queue) entry_id

  -- The `while` loop from the cursor `cursor` on; `none` if it has not ended after `rounds` rounds.
  unfoldable pub scan_queues : ℕ → ℕ → List String → Action R (Option (List String))
  unfolding add_keys
  scan_queues zero cursor queues = pure none
  scan_queues (suc rounds) cursor queues = do
    (next, keys) ← self.redis.scan cursor (stream_key self.prefix "*") 100
    found ← lift (add_keys keys queues)
    elim next [ zero ↦ pure (some found) | suc c ↦ scan_queues rounds (suc c) found ]

  unfoldable pub list_queues : ℕ → Action R (Option (List String))
  unfolding scan_queues
  list_queues rounds = scan_queues rounds 0 []
