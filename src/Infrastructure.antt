-- ===== src/Infrastructure.antt =====
-- relayq/infrastructure: the Redis Streams transport and the SQLite outbox.
pub mod Redis
pub mod RedisStream
pub mod SqliteStore
pub mod Clock
