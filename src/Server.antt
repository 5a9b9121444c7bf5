-- ===== src/Server.antt =====
-- The parts that the master and the slaves share (src/server).
pub mod LogSyncer
pub mod HeartbeatTracker
pub mod KeySpaceRange
pub mod FailureDetector
