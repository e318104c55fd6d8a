-- ===== src/System.antt =====
-- The state that the components of one process share: the Redis service, the process's outbox if one is
-- configured, the calls on the metrics, and the clocks of relayq/infrastructure/clock.py.
use relayq.Prelude.{ℕ, Option, none, some, List, ◌∷◌}
use relayq.Effect.{ok}
use relayq.Effect.Action.{Action}
use relayq.Domain.Job.{DateTime}
use relayq.Infrastructure.SqliteStore.{Db}
use relayq.Telemetry.{MetricCall}

pub record System (R : Type 0) : Type 0 where
  pub redis : R
  pub store : Option Db
  pub metrics : List MetricCall
  -- `Clock.monotonic` and `Clock.utcnow`
  pub monotonic : ℕ
  pub utcnow : DateTime

module _ {R : Type 0} where
  -- A command to Redis.
  abbrev pub on_redis : {A : Type 0} → Action R A → Action (System R) A
  on_redis m s = let (r, redis') = m s.redis in (r, record s { redis = redis' })

  abbrev pub on_db : {A : Type 0} → Option Db → A → Action Db A → Action (System R) A
  on_db none without m s = (ok without, s)
  on_db (some db) without m s = let (r, db') = m db in (r, record s { store = some db' })

  -- `if self.store: m`, with a result for a process that has no store.
  abbrev pub if_store : {A : Type 0} → A → Action Db A → Action (System R) A
  if_store without m s = on_db s.store without m s

  abbrev pub emit : MetricCall → Action (System R) (Unit {0})
  emit call s = (ok tt, record s { metrics = call ∷ s.metrics })
