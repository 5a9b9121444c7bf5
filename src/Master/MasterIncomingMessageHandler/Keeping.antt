-- ===== src/Master/MasterIncomingMessageHandler/Keeping.antt =====
-- What every change of the log keeps, under the messages of
-- src/master/MasterIncomingMessageHandler.cc.
use universal_db.Base.{u32_mod, ℕ, List, ◌<◌}
use universal_db.Base.Result.{Result, Ensures, Ensures-ok, Ensures-bind}
use universal_db.Net.EndpointId.{EndpointId}
use universal_db.Net.Sent.{Sent}
use universal_db.Proto.Client.{ClientMessage, find_key_range_request}
use universal_db.Proto.Paxos.{PaxosMessage}
use universal_db.Proto.Sync.{SyncMessage, sync_request, sync_response}
use universal_db.Proto.Sync
use universal_db.Proto.Wrapper.{
  MessageWrapper, MasterMessage, SlaveMessage, client_message, tablet_message, paxos_message,
  sync_message, master_message, slave_message, key_space_selected, key_space_changed,
}
use universal_db.Paxos.Log.{PaxosLog}
use universal_db.Paxos.Multi.{MultiPaxosHandler, handle_incoming_message}
use universal_db.Paxos.Multi.Placed.{AllPlaced, ProvidesPlaced}
use universal_db.Paxos.Single.{SinglePaxosHandler}
use universal_db.Server.LogSyncer.{handle_sync_request, handle_sync_response}
use universal_db.Server.LogSyncer.Derived.{IsNarrow}
use universal_db.Master.KeySpaceManager.{MasterState}
use universal_db.Master.MasterIncomingMessageHandler.{
  MasterServer, handle_master_message, handle_wrapper,
}
use universal_db.Base.{◌+◌, u64_mod}
use universal_db.Proto.Paxos.{PaxosLogEntry}
use universal_db.Paxos.Log.{set_entry}
use universal_db.Paxos.Multi.Keeping.{handle_incoming_message-keeps}
use universal_db.Server.LogSyncer.Derived.{set_entries-keeps}

-- The indices in a message are uint32.
abbrev pub MasterNarrow : MasterMessage → Type 0
MasterNarrow (sync_message (sync_response m)) = IsNarrow m.missing_entries
MasterNarrow (paxos_message m) = m.paxos_index < u32_mod
MasterNarrow _ = Unit {0}

abbrev pub MessageNarrow : MessageWrapper → Type 0
MessageNarrow (master_message m) = MasterNarrow m
MessageNarrow _ = Unit {0}

-- The instances stand under their indices, and the log and the state are as `Q` says.
abbrev pub Keeps : (PaxosLog MasterState → MasterState → Type 0) → MasterServer → Type 0
Keeps Q s = AllPlaced s.node.multi × Q s.node.log s.node.state

module _ (Q : PaxosLog MasterState → MasterState → Type 0)
    (set_entry-Q : (index : ℕ) (entry : PaxosLogEntry) (l : PaxosLog MasterState) (s : MasterState)
      → index + 1 < u64_mod
      → Q l s
      → Ensures (λ r. Q r.0 r.1) (set_entry index entry l s))
    (instance_provider : ℕ → MasterState → Result SinglePaxosHandler)
    (provides : ProvidesPlaced instance_provider) where
  handle_master_message-Keeps :
      (endpoint : EndpointId) (m : MasterMessage) (s : MasterServer)
      → MasterNarrow m
      → Keeps Q s
      → Ensures (Keeps Q) (handle_master_message instance_provider endpoint m s)
  unfolding handle_master_message handle_sync_response
  handle_master_message-Keeps endpoint (paxos_message m) s w v =
      Ensures-bind _
        (handle_incoming_message instance_provider endpoint m s.node.multi s.node.log s.node.state)
        _
        λ r e.
          Ensures-ok
            (λ (r : MultiPaxosHandler
                × PaxosLog MasterState
                × MasterState
                × List (Sent PaxosMessage)).
              AllPlaced r.0 × Q r.1 r.2)
            (handle_incoming_message instance_provider endpoint m s.node.multi s.node.log
              s.node.state)
            (handle_incoming_message-keeps Q set_entry-Q instance_provider endpoint m s.node.multi
              s.node.log s.node.state provides w v.0 v.1)
            e
  handle_master_message-Keeps endpoint (sync_message (sync_request m)) s w v =
      Ensures-bind _ (handle_sync_request endpoint m s.node.log) _ λ _ _. v
  handle_master_message-Keeps endpoint (sync_message (sync_response m)) s w v =
      Ensures-bind _ (handle_sync_response m s.node.log s.node.state) _ λ r e. (
        v.0,
        Ensures-ok (λ (r : PaxosLog MasterState × MasterState). Q r.0 r.1)
            (handle_sync_response m s.node.log s.node.state)
            (set_entries-keeps Q set_entry-Q m.missing_entries s.node.log s.node.state w v.1) e,
      )
  handle_master_message-Keeps endpoint (sync_message Sync.not_set) s w v = v
  handle_master_message-Keeps endpoint (key_space_selected _) s w v = v
  handle_master_message-Keeps endpoint MasterMessage.not_set s w v = v

  pub handle_wrapper-Keeps :
      (endpoint : EndpointId) (message : MessageWrapper) (s : MasterServer)
      → MessageNarrow message
      → Keeps Q s
      → Ensures (Keeps Q) (handle_wrapper instance_provider endpoint message s)
  unfolding handle_wrapper
  handle_wrapper-Keeps endpoint (master_message m) s w v =
      handle_master_message-Keeps endpoint m s w v
  handle_wrapper-Keeps endpoint MessageWrapper.not_set s w v = v
  handle_wrapper-Keeps endpoint (client_message ClientMessage.not_set) s w v = v
  handle_wrapper-Keeps endpoint (client_message (ClientMessage.request _)) s w v = v
  handle_wrapper-Keeps endpoint (client_message (ClientMessage.response _)) s w v = v
  handle_wrapper-Keeps endpoint (client_message (find_key_range_request _)) s w v = v
  handle_wrapper-Keeps endpoint (client_message (ClientMessage.find_key_range_response _)) s w v = v
  handle_wrapper-Keeps endpoint (slave_message SlaveMessage.not_set) s w v = v
  handle_wrapper-Keeps endpoint (slave_message SlaveMessage.heartbeat) s w v = v
  handle_wrapper-Keeps endpoint (slave_message (SlaveMessage.paxos_message _)) s w v = v
  handle_wrapper-Keeps endpoint (slave_message (SlaveMessage.sync_message _)) s w v = v
  handle_wrapper-Keeps endpoint (slave_message (key_space_changed _)) s w v = v
  handle_wrapper-Keeps endpoint (tablet_message _) s w v = v
