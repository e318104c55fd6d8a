-- ===== src/Application/Enqueue.antt =====
-- relayq/application/enqueue.py
pub mod Steps
pub mod Outcomes
pub mod Idempotency
pub mod Exhaustion
pub mod Delivered
use relayq.Prelude.{ℕ, ◌+◌, String, true, Option, none, some, leb, str_eq, if◌then◌else◌}
use relayq.Effect.{Result, queue_full, idempotency_conflict}
use relayq.Effect.Action.{Action, ◌>>=◌, ◌>>◌, raise, lift, skip}
use relayq.Domain.Job.{Job}
use relayq.Infrastructure.SqliteStore.{find_by_idempotency_key, insert_outbox, transaction}
use relayq.Infrastructure.RedisStream.{Transport, stream_length, xadd}
use relayq.System.{System, on_redis, if_store}

pub record Enqueuer (R : Type 0) : Type 0 where
  pub transport : Transport R
  pub max_queue_depth : ℕ

-- `if idempotency_key:` no key and the empty key are false.
unfoldable pub given_key : Option String → Option String
given_key none = none
given_key (some key) = if str_eq key "" then none else some key

-- `job.idempotency_key = idempotency_key`, where one is given.
unfoldable pub keyed : Option String → Job → Job
unfolding given_key
keyed idempotency_key job = elim (given_key idempotency_key) [
  | none ↦ job
  | some key ↦ record job { idempotency_key = some key }
]

module _ {R : Type 0} (self : Enqueuer R) where
  open self use {transport, max_queue_depth}

  -- 2. Backpressure.
  unfoldable pub check_depth : Job → Action (System R) (Unit {0})
  check_depth job = do
    depth ← on_redis (stream_length transport job.queue)
    if leb max_queue_depth depth then raise (queue_full job.queue depth max_queue_depth) else skip

  abbrev pub refuse_existing : String → Option Job → Action (System R) (Unit {0})
  refuse_existing key none = skip
  refuse_existing key (some existing) = raise (idempotency_conflict key)

  -- 3. The idempotency check; `given` is the key, if one is given.
  unfoldable pub check_key : Option String → Action (System R) (Unit {0})
  check_key none s = skip s
  check_key (some key) s =
      (do
        existing ← if_store none (find_by_idempotency_key transport.codec s.utcnow key)
        refuse_existing key existing)
        s

  -- 4. The outbox insert; a process without a store only logs a warning.
  unfoldable pub write_outbox : Job → Action (System R) (Unit {0})
  write_outbox job = if_store tt (transaction (insert_outbox transport.codec job))

  -- 5. XADD to the stream.
  unfoldable pub write_stream : Job → Action (System R) String
  write_stream job = on_redis (xadd transport job.queue job (max_queue_depth + 1000) true)

  -- `enqueue(job, idempotency_key, validate)`; without `validate` pass `λ job. ok tt`.
  unfoldable pub enqueue :
      (Job → Result (Unit {0})) → Job → Option String → Action (System R) String
  enqueue validate job idempotency_key = do
    lift (validate job)
    check_depth job
    check_key (given_key idempotency_key)
    write_outbox (keyed idempotency_key job)
    write_stream (keyed idempotency_key job)
