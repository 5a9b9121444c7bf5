-- ===== src/Paxos.antt =====
-- Multi-Paxos (src/paxos).
pub mod Config
pub mod Log
pub mod Single
pub mod Multi
pub mod Provider
pub mod ProposerQueue
