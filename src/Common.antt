-- ===== src/Common.antt =====
-- common: the circular queue and the retry loop.
pub mod CircularQueue
pub mod Retry
pub mod Utils
