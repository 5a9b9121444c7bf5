-- ===== src/Async.antt =====
-- Scheduling on one thread (src/async).
pub mod Queue
