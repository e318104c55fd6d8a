-- ===== src/Worker.antt =====
-- relayq/worker: admission control and the worker loop.
pub mod Admission
pub mod Shutdown
pub mod Runner
