-- ===== src/Net.antt =====
-- The network layer (src/net): endpoints and what the components hand to it.
pub mod Connections
pub mod EndpointId
pub mod IncomingMessage
pub mod Sent
