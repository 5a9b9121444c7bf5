-- ===== src/Master.antt =====
-- A master server (src/master): which slave group holds which ranges of the keys.
pub mod GroupConfigManager
pub mod KeySpaceManager
pub mod Functors
pub mod MasterIncomingMessageHandler
pub mod DataMaster
