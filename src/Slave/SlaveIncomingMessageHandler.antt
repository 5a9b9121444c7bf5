-- ===== src/Slave/SlaveIncomingMessageHandler.antt =====
-- SlaveIncomingMessageHandler of src/slave/SlaveIncomingMessageHandler.cc: a slave takes the
-- messages of clients, of masters and of the other slaves. A participant, of type `P`, takes
-- messages by `queue_message` of its scheduler.
pub mod Tablets
pub mod Keeping
pub mod Covered
use universal_db.Base.{ℕ, List, [], ◌∷◌, ◌++◌}
use universal_db.Base.Result.{Result, ok, ◌>>=◌}
use universal_db.Net.EndpointId.{EndpointId}
use universal_db.Net.IncomingMessage.{IncomingMessage}
use universal_db.Net.Sent.{Sent, wrap_all}
use universal_db.Proto.Client.{ClientResponse, request}
use universal_db.Proto.Sync.{sync_request, sync_response}
use universal_db.Proto.Wrapper.{
  MessageWrapper, SlaveMessage, client_message, tablet_message, master_message, slave_message,
  paxos_message, sync_message, heartbeat, key_space_selected,
}
use universal_db.Async.Queue.{AsyncQueue}
use universal_db.Paxos.Multi.{handle_incoming_message}
use universal_db.Paxos.Single.{SinglePaxosHandler}
use universal_db.Server.HeartbeatTracker.{Counts, handle_heartbeat}
use universal_db.Server.LogSyncer.{handle_sync_request, handle_sync_response}
use universal_db.Slave.Functors.{send_paxos, send_sync}
use universal_db.Slave.SlaveKeySpaceManager.{
  SlaveState, SlaveNode, ChangeTask, handle_key_space_change,
}
use universal_db.Slave.TabletParticipantManager
use universal_db.Slave.TabletParticipantManager.{TabletParticipantManager}

-- The slave with the queue of its tasks, what goes out to the other slaves, and the responses to
-- clients.
pub record SlaveServer (P : Type 0) : Type 0 where
  pub node : SlaveNode P
  pub heartbeat_count : Counts
  pub async_queue : AsyncQueue ChangeTask
  pub out : List (Sent MessageWrapper)
  pub responses : List (EndpointId × ClientResponse)

module _ {P : Type 0} (queue_message : IncomingMessage → P → P)
    (instance_provider : ℕ → SlaveState P → Result SinglePaxosHandler) where
  -- `_participant_manager.handle`
  unfoldable pub pass_on : IncomingMessage → SlaveServer P → SlaveServer P
  pass_on incoming s =
      let r = TabletParticipantManager.handle queue_message incoming s.node.state.participants in
      record s {
        node = record s.node { state = record s.node.state { participants = r.0 } };
        responses = s.responses ++ r.1;
      }

  unfoldable pub handle_slave_message :
      EndpointId → SlaveMessage → SlaveServer P → Result (SlaveServer P)
  handle_slave_message endpoint_id heartbeat s =
      ok (record s { heartbeat_count = handle_heartbeat endpoint_id s.heartbeat_count })
  handle_slave_message endpoint_id (sync_message (sync_request m)) s =
      handle_sync_request endpoint_id m s.node.log >>= λ sent.
      ok (record s { out = s.out ++ wrap_all send_sync sent })
  handle_slave_message endpoint_id (sync_message (sync_response m)) s =
      handle_sync_response m s.node.log s.node.state >>= λ r.
      ok (record s { node = record s.node { log = r.0; state = r.1 } })
  handle_slave_message endpoint_id (paxos_message m) s =
      handle_incoming_message instance_provider endpoint_id m s.node.multi s.node.log s.node.state
      >>= λ r. ok (record s {
        node = record s.node { multi = r.0; log = r.1; state = r.2 };
        out = s.out ++ wrap_all send_paxos r.3;
      })
  handle_slave_message endpoint_id _ s = ok s

  unfoldable pub handle : IncomingMessage → SlaveServer P → Result (SlaveServer P)
  unfolding pass_on handle_slave_message
  handle incoming s = elim incoming.message [
    | client_message (request _) ↦ ok (pass_on incoming s)
    | tablet_message _ ↦ ok (pass_on incoming s)
    | slave_message m ↦ handle_slave_message incoming.endpoint_id m s
    | master_message (key_space_selected m) ↦
        ok (record s { async_queue = handle_key_space_change incoming.endpoint_id m s.async_queue })
    | _ ↦ ok s
  ]
