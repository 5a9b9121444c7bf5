-- ===== src/Proto/Sync.antt =====
-- sync.proto.
use universal_db.Base.{ℕ, List}
use universal_db.Proto.Paxos.{PaxosLogEntry}

-- SyncRequest.IndexSubArray: both ends are inclusive.
pub record IndexSubArray : Type 0 where
  pub start : ℕ
  pub end : ℕ

pub record SyncRequest : Type 0 where
  pub missing_indices : List IndexSubArray
  pub last_index : ℕ

-- SyncResponse.PaxosLogEntryWithIndex
pub record EntryWithIndex : Type 0 where
  pub index : ℕ
  pub entry : PaxosLogEntry

pub record SyncResponse : Type 0 where
  pub missing_entries : List EntryWithIndex

-- The `oneof` of proto.sync.SyncMessage.
pub data SyncMessage : Type 0 where
  not_set : SyncMessage
  sync_request : SyncRequest → SyncMessage
  sync_response : SyncResponse → SyncMessage
