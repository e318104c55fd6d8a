-- ===== src/Infrastructure/Redis.antt =====
-- The commands of `redis.asyncio` that relayq/infrastructure/redis_stream.py sends. The server and the
-- client are not part of the repository: they are a value of this record, over a type of its states.
pub mod Log
use relayq.Prelude.{ℕ, String, Bool, Option, List}
use relayq.Effect.Action.{Action}

-- A text of a reply: a `str` if the client decodes responses, or bytes; `raw none` is not UTF-8.
pub data Wire : Type 0 where
  text : String → Wire
  raw : Option String → Wire

-- `(entry_id, {field: value, …})`
pub record Entry : Type 0 where
  pub entry_id : String
  pub fields : List (Wire × Wire)

pub record Redis (R : Type 0) : Type 0 where
  pub xlen : String → Action R ℕ
  -- key, body, and `maxlen` and `approximate` where they are given
  pub xadd : String → List (String × String) → Option ℕ → Bool → Action R String
  -- stream, group, entry
  pub xack : String → String → String → Action R ℕ
  -- stream, group, first id, `mkstream`
  pub xgroup_create : String → String → String → Bool → Action R (Unit {0})
  -- group, consumer, stream, last id, `count`, `block`
  pub xreadgroup : String → String → String → String → ℕ → ℕ → Action R (List (Wire × List Entry))
  -- stream, group, consumer, idle time, first id, `count`; `none` is a reply of less than two parts
  pub xautoclaim : String → String → String → ℕ → String → ℕ → Action R (Option (List Entry))
  -- key, end, start, `count`
  pub xrevrange : String → String → String → ℕ → Action R (List Entry)
  pub xdel : String → String → Action R (Unit {0})
  -- cursor, `match`, `count`; the next cursor and the keys
  pub scan : ℕ → String → ℕ → Action R (ℕ × List Wire)
