-- ===== src/Net/IncomingMessage.antt =====
-- IncomingMessage of src/net/IncomingMessage.h: the message in it stands for its bytes.
use universal_db.Net.EndpointId.{EndpointId}
use universal_db.Proto.Wrapper.{MessageWrapper}

pub record IncomingMessage : Type 0 where
  pub endpoint_id : EndpointId
  pub message : MessageWrapper
