-- ===== src/Slave.antt =====
-- A slave server (src/slave): the key-value store of a tablet and the handlers around it.
pub mod ClientRequestHandler
pub mod Functors
pub mod IncomingMessageHandler
pub mod KvStore
pub mod SlaveKeySpaceManager
pub mod TabletParticipantManager
pub mod SlaveIncomingMessageHandler
pub mod TabletParticipant
pub mod LocalTransactionManager
