-- ===== src/LogQueue.antt =====
-- internal/harness/logstore_queue.go: the ordered write queue between a session's event pump and
-- log-store.
pub mod Retry
pub mod Fates
pub mod Attempts
pub mod Channel
pub mod Order
pub mod Drain
