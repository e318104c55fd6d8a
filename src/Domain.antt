-- ===== src/Domain.antt =====
-- relayq/domain: the job, its dictionary form, and the retry policy.
pub mod Json
pub mod Job
pub mod Retry
