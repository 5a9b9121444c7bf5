-- ===== src/Proto/Client.antt =====
-- message_client.proto.
use universal_db.Base.{ℕ, Option}
use universal_db.Base.Bytes.{Bytes}

-- ClientRequest.Type; the enum is open, so a message may hold another number.
pub data RequestType : Type 0 where
  unset_type read_type write_type other_type : RequestType

pub record ClientRequest : Type 0 where
  pub request_id : Bytes
  pub request_type : RequestType
  pub database_id : Bytes
  pub table_id : Bytes
  pub key : Bytes
  pub value : Option Bytes
  pub timestamp : Option ℕ

pub data Code : Type 0 where
  unset success error : Code

pub record ClientResponse : Type 0 where
  pub value : Option Bytes
  pub error_code : Code

pub record FindKeyRangeRequest : Type 0 where
  pub database_id : Bytes
  pub table_id : Bytes
  pub key : Bytes

pub record FindKeyRangeResponse : Type 0 where
  pub slave_group_id : Bytes
  pub error_code : Code

-- The `oneof` of ClientMessage.
pub data ClientMessage : Type 0 where
  not_set : ClientMessage
  request : ClientRequest → ClientMessage
  response : ClientResponse → ClientMessage
  find_key_range_request : FindKeyRangeRequest → ClientMessage
  find_key_range_response : FindKeyRangeResponse → ClientMessage
