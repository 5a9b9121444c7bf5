-- ===== src/Slave/IncomingMessageHandler/Keeping.antt =====
-- What every change of the log keeps, under the messages of src/slave/IncomingMessageHandler.cc.
use universal_db.Base.{u32_mod, ◌<◌, ℕ, List}
use universal_db.Base.Result.{Result, Ensures, Ensures-ok, Ensures-bind}
use universal_db.Net.EndpointId.{EndpointId}
use universal_db.Net.Sent.{Sent}
use universal_db.Proto.Client.{ClientMessage, request}
use universal_db.Proto.Paxos.{PaxosMessage}
use universal_db.Proto.Sync.{SyncMessage, sync_request, sync_response}
use universal_db.Proto.Sync
use universal_db.Proto.Wrapper.{
  MessageWrapper, TabletContent, client_message, tablet_message, paxos_message, sync_message,
  master_message, slave_message,
}
use universal_db.Paxos.Log.{PaxosLog}
use universal_db.Paxos.Multi.{MultiPaxosHandler, handle_incoming_message}
use universal_db.Paxos.Multi.Placed.{AllPlaced, ProvidesPlaced}
use universal_db.Paxos.Single.{SinglePaxosHandler}
use universal_db.Server.LogSyncer.{handle_sync_request, handle_sync_response}
use universal_db.Server.LogSyncer.Derived.{IsNarrow}
use universal_db.Slave.ClientRequestHandler.{TabletState}
use universal_db.Slave.IncomingMessageHandler.{TabletServer, handle_content, handle_wrapper}
use universal_db.Base.{◌+◌, u64_mod}
use universal_db.Proto.Paxos.{PaxosLogEntry}
use universal_db.Paxos.Log.{set_entry}
use universal_db.Paxos.Multi.Keeping.{handle_incoming_message-keeps}
use universal_db.Server.LogSyncer.Derived.{set_entries-keeps}

-- The indices in a message are uint32.
abbrev pub ContentNarrow : TabletContent → Type 0
ContentNarrow (sync_message (sync_response m)) = IsNarrow m.missing_entries
ContentNarrow (paxos_message m) = m.paxos_index < u32_mod
ContentNarrow _ = Unit {0}

abbrev pub MessageNarrow : MessageWrapper → Type 0
MessageNarrow (tablet_message m) = ContentNarrow m.content
MessageNarrow _ = Unit {0}

-- The instances stand under their indices, and the log and the state are as `Q` says.
abbrev pub Keeps : (PaxosLog TabletState → TabletState → Type 0) → TabletServer → Type 0
Keeps Q t = AllPlaced t.tablet.multi × Q t.tablet.log t.tablet.state

module _ (Q : PaxosLog TabletState → TabletState → Type 0)
    (set_entry-Q : (index : ℕ) (entry : PaxosLogEntry) (l : PaxosLog TabletState) (s : TabletState)
      → index + 1 < u64_mod
      → Q l s
      → Ensures (λ r. Q r.0 r.1) (set_entry index entry l s))
    (instance_provider : ℕ → TabletState → Result SinglePaxosHandler)
    (provides : ProvidesPlaced instance_provider) where
  handle_content-Keeps :
      (endpoint : EndpointId) (content : TabletContent) (t : TabletServer)
      → ContentNarrow content
      → Keeps Q t
      → Ensures (Keeps Q) (handle_content instance_provider endpoint content t)
  unfolding handle_content handle_sync_response
  handle_content-Keeps endpoint (paxos_message m) t w v =
      Ensures-bind _
        (handle_incoming_message instance_provider endpoint m t.tablet.multi t.tablet.log
          t.tablet.state)
        _
        λ r e.
          Ensures-ok
            (λ (r : MultiPaxosHandler
                × PaxosLog TabletState
                × TabletState
                × List (Sent PaxosMessage)).
              AllPlaced r.0 × Q r.1 r.2)
            (handle_incoming_message instance_provider endpoint m t.tablet.multi t.tablet.log
              t.tablet.state)
            (handle_incoming_message-keeps Q set_entry-Q instance_provider endpoint m t.tablet.multi
              t.tablet.log t.tablet.state provides w v.0 v.1)
            e
  handle_content-Keeps endpoint (sync_message (sync_request m)) t w v =
      Ensures-bind _ (handle_sync_request endpoint m t.tablet.log) _ λ _ _. v
  handle_content-Keeps endpoint (sync_message (sync_response m)) t w v =
      Ensures-bind _ (handle_sync_response m t.tablet.log t.tablet.state) _ λ r e. (
        v.0,
        Ensures-ok (λ (r : PaxosLog TabletState × TabletState). Q r.0 r.1)
            (handle_sync_response m t.tablet.log t.tablet.state)
            (set_entries-keeps Q set_entry-Q m.missing_entries t.tablet.log t.tablet.state w v.1) e,
      )
  handle_content-Keeps endpoint (sync_message Sync.not_set) t w v = v
  handle_content-Keeps endpoint TabletContent.not_set t w v = v

  pub handle_wrapper-Keeps :
      (endpoint : EndpointId) (message : MessageWrapper) (t : TabletServer)
      → MessageNarrow message
      → Keeps Q t
      → Ensures (Keeps Q) (handle_wrapper instance_provider endpoint message t)
  unfolding handle_wrapper
  handle_wrapper-Keeps endpoint (tablet_message m) t w v =
      handle_content-Keeps endpoint m.content t w v
  handle_wrapper-Keeps endpoint MessageWrapper.not_set t w v = v
  handle_wrapper-Keeps endpoint (client_message ClientMessage.not_set) t w v = v
  handle_wrapper-Keeps endpoint (client_message (request _)) t w v = v
  handle_wrapper-Keeps endpoint (client_message (ClientMessage.response _)) t w v = v
  handle_wrapper-Keeps endpoint (client_message (ClientMessage.find_key_range_request _)) t w v = v
  handle_wrapper-Keeps endpoint (client_message (ClientMessage.find_key_range_response _)) t w v = v
  handle_wrapper-Keeps endpoint (master_message _) t w v = v
  handle_wrapper-Keeps endpoint (slave_message _) t w v = v
