-- ===== src/Proto.antt =====
-- The protocol buffers of src/proto/*.proto: a message is a record, a `oneof` a data type with one
-- more constructor for "not set", a wrapper (StringValue, UInt64Value) an optional. Serialisation
-- is the protobuf library's: a sent message is received as the value that was sent.
pub mod Paxos
pub mod Sync
pub mod Client
pub mod Wrapper
