-- ===== src/Proto/Paxos.antt =====
-- common.proto, paxos.proto, paxos_master.proto, paxos_slave.proto and paxos_tablet.proto.
use universal_db.Base.{ℕ, Option, none, some, List, []}
use universal_db.Base.Bytes.{Bytes}

-- proto.common.KeySpaceRange
pub record KeySpaceRange : Type 0 where
  pub database_id : Bytes
  pub table_id : Bytes
  pub start_key : Option Bytes
  pub end_key : Option Bytes

-- proto.paxos.master.NewKeySpaceSelected
pub record NewKeySpaceSelected : Type 0 where
  pub slave_group_id : Bytes
  pub new_ranges : List KeySpaceRange
  pub generation : ℕ

-- proto.paxos.master.KeySpaceCommit
pub record KeySpaceCommit : Type 0 where
  pub slave_group_id : Bytes
  pub generation : ℕ

-- proto.paxos.slave.KeySpaceChanged
pub record KeySpaceChanged : Type 0 where
  pub new_ranges : List KeySpaceRange
  pub generation : ℕ

-- proto.paxos.tablet.Read
pub record Read : Type 0 where
  pub request_id : Option Bytes
  pub key : Option Bytes
  pub timestamp : Option ℕ

-- proto.paxos.tablet.Write
pub record Write : Type 0 where
  pub request_id : Option Bytes
  pub key : Option Bytes
  pub value : Option Bytes
  pub timestamp : Option ℕ

-- proto.paxos.PaxosLogEntry
pub data PaxosLogEntry : Type 0 where
  not_set : PaxosLogEntry
  key_space_selected : NewKeySpaceSelected → PaxosLogEntry
  key_space_commit : KeySpaceCommit → PaxosLogEntry
  key_space_changed : KeySpaceChanged → PaxosLogEntry
  read : Read → PaxosLogEntry
  write : Write → PaxosLogEntry
  reconfig_started : List Bytes → PaxosLogEntry
  reconfig_finished : PaxosLogEntry

-- PaxosLogEntry::entry_content_case(): the field numbers of the `oneof`.
unfoldable pub entry_content_case : PaxosLogEntry → ℕ
entry_content_case not_set = 0
entry_content_case (key_space_selected m) = 1
entry_content_case (key_space_commit m) = 2
entry_content_case (key_space_changed m) = 3
entry_content_case (read m) = 4
entry_content_case (write m) = 5
entry_content_case (reconfig_started m) = 6
entry_content_case reconfig_finished = 7

-- A wrapper that is not set reads as the default value of its type.
unfoldable pub string_value : Option Bytes → Bytes
string_value none = []
string_value (some s) = s

unfoldable pub uint64_value : Option ℕ → ℕ
uint64_value none = 0
uint64_value (some n) = n

pub record Prepare : Type 0 where
  pub rnd : ℕ

pub record Promise : Type 0 where
  pub rnd : ℕ
  pub vrnd : ℕ
  pub vval : PaxosLogEntry

pub record Accept : Type 0 where
  pub vrnd : ℕ
  pub vval : PaxosLogEntry

pub record Learn : Type 0 where
  pub vrnd : ℕ
  pub vval : PaxosLogEntry

-- The `oneof` of proto.paxos.PaxosMessage.
pub data PaxosContent : Type 0 where
  content_not_set : PaxosContent
  prepare : Prepare → PaxosContent
  promise : Promise → PaxosContent
  accept : Accept → PaxosContent
  learn : Learn → PaxosContent

pub record PaxosMessage : Type 0 where
  pub paxos_index : ℕ
  pub content : PaxosContent
