-- ===== src/Slave/SlaveIncomingMessageHandler/Keeping.antt =====
-- What every change of the log keeps, under the messages of
-- src/slave/SlaveIncomingMessageHandler.cc.
use universal_db.Base.{ℕ, ◌+◌, ◌<◌, u32_mod, u64_mod, List}
use universal_db.Base.Eq.{nat_eq}
use universal_db.Base.Result.{Result, Ensures, Ensures-ok, Ensures-bind}
use universal_db.Net.EndpointId.{EndpointId}
use universal_db.Net.IncomingMessage.{IncomingMessage}
use universal_db.Net.Sent.{Sent}
use universal_db.Proto.Client.{ClientMessage, request}
use universal_db.Proto.Paxos.{PaxosLogEntry, PaxosMessage}
use universal_db.Proto.Sync.{SyncMessage, sync_request, sync_response}
use universal_db.Proto.Sync
use universal_db.Proto.Wrapper.{
  MessageWrapper, MasterMessage, SlaveMessage, client_message, tablet_message, paxos_message,
  sync_message, master_message, slave_message, key_space_selected, key_space_changed, heartbeat,
}
use universal_db.Paxos.Log.{PaxosLog, set_entry}
use universal_db.Paxos.Multi.{MultiPaxosHandler, handle_incoming_message}
use universal_db.Paxos.Multi.Placed.{AllPlaced, ProvidesPlaced}
use universal_db.Paxos.Multi.Keeping.{handle_incoming_message-keeps}
use universal_db.Paxos.Single.{SinglePaxosHandler}
use universal_db.Server.LogSyncer.{handle_sync_request, handle_sync_response}
use universal_db.Server.LogSyncer.Derived.{IsNarrow, set_entries-keeps}
use universal_db.Slave.SlaveIncomingMessageHandler.{
  SlaveServer, pass_on, handle_slave_message, handle,
}
use universal_db.Server.KeySpaceRange.{range_eq}
use universal_db.Slave.SlaveKeySpaceManager.{SlaveState}
use universal_db.Slave.TabletParticipantManager

-- The indices in a message are uint32.
abbrev pub SlaveNarrow : SlaveMessage → Type 0
SlaveNarrow (sync_message (sync_response m)) = IsNarrow m.missing_entries
SlaveNarrow (paxos_message m) = m.paxos_index < u32_mod
SlaveNarrow _ = Unit {0}

abbrev pub MessageNarrow : MessageWrapper → Type 0
MessageNarrow (slave_message m) = SlaveNarrow m
MessageNarrow _ = Unit {0}

-- The instances stand under their indices, and the log and the state are as `Q` says.
abbrev pub Keeps :
    {P : Type 0} → (PaxosLog (SlaveState P) → SlaveState P → Type 0) → SlaveServer P → Type 0
Keeps Q s = AllPlaced s.node.multi × Q s.node.log s.node.state

-- What TabletParticipantManager makes of the state when a message is passed on to it.
abbrev pub passed :
    {P : Type 0} → (IncomingMessage → P → P) → IncomingMessage → SlaveState P → SlaveState P
passed queue_message incoming s = record s {
  participants = (TabletParticipantManager.handle queue_message incoming s.participants).0;
}

module _ {P : Type 0} (queue_message : IncomingMessage → P → P)
    (instance_provider : ℕ → SlaveState P → Result SinglePaxosHandler)
    (provides : ProvidesPlaced instance_provider)
    (Q : PaxosLog (SlaveState P) → SlaveState P → Type 0)
    (set_entry-Q : (index : ℕ) (entry : PaxosLogEntry) (l : PaxosLog (SlaveState P))
        (s : SlaveState P)
      → index + 1 < u64_mod
      → Q l s
      → Ensures (λ r. Q r.0 r.1) (set_entry index entry l s))
    (Accepts : IncomingMessage → Type 0)
    (passed-Q : (incoming : IncomingMessage) (l : PaxosLog (SlaveState P)) (s : SlaveState P)
      → Accepts incoming
      → Q l s
      → Q l (passed queue_message incoming s)) where
  handle_slave_message-Keeps :
      (endpoint : EndpointId) (m : SlaveMessage) (s : SlaveServer P)
      → SlaveNarrow m
      → Keeps Q s
      → Ensures (Keeps Q) (handle_slave_message queue_message instance_provider endpoint m s)
  unfolding handle_slave_message handle_sync_response
  handle_slave_message-Keeps endpoint SlaveMessage.not_set s w v = v
  handle_slave_message-Keeps endpoint heartbeat s w v = v
  handle_slave_message-Keeps endpoint (key_space_changed _) s w v = v
  handle_slave_message-Keeps endpoint (paxos_message m) s w v =
      Ensures-bind _
        (handle_incoming_message instance_provider endpoint m s.node.multi s.node.log s.node.state)
        _
        λ r e.
          Ensures-ok
            (λ (r : MultiPaxosHandler
                × PaxosLog (SlaveState P)
                × SlaveState P
                × List (Sent PaxosMessage)).
              AllPlaced r.0 × Q r.1 r.2)
            (handle_incoming_message instance_provider endpoint m s.node.multi s.node.log
              s.node.state)
            (handle_incoming_message-keeps Q set_entry-Q instance_provider endpoint m s.node.multi
              s.node.log s.node.state provides w v.0 v.1)
            e
  handle_slave_message-Keeps endpoint (sync_message (sync_request m)) s w v =
      Ensures-bind _ (handle_sync_request endpoint m s.node.log) _ λ _ _. v
  handle_slave_message-Keeps endpoint (sync_message (sync_response m)) s w v =
      Ensures-bind _ (handle_sync_response m s.node.log s.node.state) _ λ r e. (
        v.0,
        Ensures-ok (λ (r : PaxosLog (SlaveState P) × SlaveState P). Q r.0 r.1)
            (handle_sync_response m s.node.log s.node.state)
            (set_entries-keeps Q set_entry-Q m.missing_entries s.node.log s.node.state w v.1) e,
      )
  handle_slave_message-Keeps endpoint (sync_message Sync.not_set) s w v = v

  pub handle-Keeps :
      (endpoint : EndpointId) (message : MessageWrapper) (s : SlaveServer P)
      → MessageNarrow message
      → Accepts (record { endpoint_id = endpoint; message = message })
      → Keeps Q s
      → Ensures (Keeps Q) (
          handle queue_message instance_provider
            (record { endpoint_id = endpoint; message = message })
            s)
  unfolding handle pass_on
  handle-Keeps endpoint (client_message (request q)) s w a v = (
    v.0,
    passed-Q (record { endpoint_id = endpoint; message = client_message (request q) }) s.node.log
        s.node.state a v.1,
  )
  handle-Keeps endpoint (tablet_message t) s w a v = (
    v.0,
    passed-Q (record { endpoint_id = endpoint; message = tablet_message t }) s.node.log s.node.state
        a v.1,
  )
  handle-Keeps endpoint (slave_message m) s w a v = handle_slave_message-Keeps endpoint m s w v
  handle-Keeps endpoint (master_message (key_space_selected m)) s w a v = v
  handle-Keeps endpoint (master_message MasterMessage.not_set) s w a v = v
  handle-Keeps endpoint (master_message (MasterMessage.paxos_message _)) s w a v = v
  handle-Keeps endpoint (master_message (MasterMessage.sync_message _)) s w a v = v
  handle-Keeps endpoint MessageWrapper.not_set s w a v = v
  handle-Keeps endpoint (client_message ClientMessage.not_set) s w a v = v
  handle-Keeps endpoint (client_message (ClientMessage.response _)) s w a v = v
  handle-Keeps endpoint (client_message (ClientMessage.find_key_range_request _)) s w a v = v
  handle-Keeps endpoint (client_message (ClientMessage.find_key_range_response _)) s w a v = v
