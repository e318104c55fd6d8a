-- ===== src/Application.antt =====
-- relayq/application: enqueue, execute, recover.
pub mod Enqueue
pub mod Execute
pub mod Recover
