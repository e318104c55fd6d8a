-- ===== src/Api/Lifespan.antt =====
-- The start and the end of `lifespan` in api/main.py, for the Redis that `redis.from_url` gives.
use relayq.Prelude.{Option, none, some}
use relayq.Effect.Action.{Action, ◌>>◌, pure, skip}
use relayq.Domain.Job.{Codec}
use relayq.Infrastructure.Redis.{Redis}
use relayq.Infrastructure.RedisStream.{Transport, ensure_group}
use relayq.Application.Enqueue.{Enqueuer}
use relayq.Api.Endpoints.{Globals}

module _ {R : Type 0} (redis : Redis R) (codec : Codec) where
  abbrev pub api_transport : Transport R
  api_transport = record { redis = redis; prefix = "relayq"; codec = codec }

  -- The enqueuer has no store, and the default depth.
  abbrev pub api_enqueuer : Enqueuer R
  api_enqueuer = record { transport = api_transport; max_queue_depth = 10000 }

  -- The application starts once the default queue has its group.
  unfoldable pub start_up : Action R (Globals R)
  start_up = do
    ensure_group api_transport "default"
    pure (record {
      transport = some api_transport;
      enqueuer = some api_enqueuer;
      redis_client = some redis;
    })

module _ {R : Type 0} where
  abbrev closed : (Redis R → Action R (Unit {0})) → Option (Redis R) → Action R (Unit {0})
  closed aclose none = skip
  closed aclose (some client) = aclose client

  -- After the `yield`, with what `redis_client.aclose()` does.
  unfoldable pub shut_down : (Redis R → Action R (Unit {0})) → Globals R → Action R (Unit {0})
  shut_down aclose globals = closed aclose globals.redis_client
