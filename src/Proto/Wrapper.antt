-- ===== src/Proto/Wrapper.antt =====
-- message.proto, message_master.proto, message_slave.proto and message_tablet.proto.
use universal_db.Base.{ℕ, List}
use universal_db.Proto.Paxos.{KeySpaceRange, PaxosMessage}
use universal_db.Proto.Sync.{SyncMessage}
use universal_db.Proto.Client.{ClientMessage}

-- proto.message.master.NewKeySpaceSelected
pub record KeySpaceSelection : Type 0 where
  pub new_ranges : List KeySpaceRange
  pub generation : ℕ

pub data MasterMessage : Type 0 where
  not_set : MasterMessage
  paxos_message : PaxosMessage → MasterMessage
  sync_message : SyncMessage → MasterMessage
  key_space_selected : KeySpaceSelection → MasterMessage

-- `key_space_changed` holds the generation of a proto.message.slave.KeySpaceChanged.
pub data SlaveMessage : Type 0 where
  not_set : SlaveMessage
  heartbeat : SlaveMessage
  paxos_message : PaxosMessage → SlaveMessage
  sync_message : SyncMessage → SlaveMessage
  key_space_changed : ℕ → SlaveMessage

-- The `oneof` of TabletMessage.
pub data TabletContent : Type 0 where
  not_set : TabletContent
  paxos_message : PaxosMessage → TabletContent
  sync_message : SyncMessage → TabletContent

pub record TabletMessage : Type 0 where
  pub range : KeySpaceRange
  pub content : TabletContent

pub data MessageWrapper : Type 0 where
  not_set : MessageWrapper
  client_message : ClientMessage → MessageWrapper
  master_message : MasterMessage → MessageWrapper
  slave_message : SlaveMessage → MessageWrapper
  tablet_message : TabletMessage → MessageWrapper
