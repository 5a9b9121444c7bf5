-- ===== src/Slave/IncomingMessageHandler.antt =====
-- IncomingMessageHandler of src/slave/IncomingMessageHandler.cc: a tablet takes the messages that
-- its slave has routed to it.
pub mod Keeping
pub mod Replica
use universal_db.Base.{ℕ, List, [], ◌∷◌, ◌++◌}
use universal_db.Base.Result.{Result, ok, ◌>>=◌}
use universal_db.Net.EndpointId.{EndpointId}
use universal_db.Net.IncomingMessage.{IncomingMessage}
use universal_db.Net.Sent.{Sent, wrap_all}
use universal_db.Proto.Client.{request}
use universal_db.Proto.Sync.{SyncMessage, sync_request, sync_response}
use universal_db.Proto.Wrapper.{
  MessageWrapper, TabletContent, client_message, tablet_message, paxos_message, sync_message,
}
use universal_db.Async.Queue.{AsyncQueue}
use universal_db.Paxos.Multi.{handle_incoming_message}
use universal_db.Paxos.Single.{SinglePaxosHandler}
use universal_db.Server.KeySpaceRange.{KeySpaceRange}
use universal_db.Server.LogSyncer.{handle_sync_request, handle_sync_response}
use universal_db.Slave.ClientRequestHandler.{TabletState, Tablet, RequestTask, handle_request}
use universal_db.Slave.Functors.{tablet_paxos, tablet_sync}

-- The tablet with its queue, and what goes out to the other slaves.
pub record TabletServer : Type 0 where
  pub tablet_id : KeySpaceRange
  pub tablet : Tablet
  pub async_queue : AsyncQueue RequestTask
  pub out : List (Sent MessageWrapper)

module _ (instance_provider : ℕ → TabletState → Result SinglePaxosHandler) where
  unfoldable pub handle_content : EndpointId → TabletContent → TabletServer → Result TabletServer
  handle_content endpoint_id (paxos_message m) t =
      handle_incoming_message instance_provider endpoint_id m t.tablet.multi t.tablet.log
        t.tablet.state
      >>= λ r. ok (record t {
        tablet = record t.tablet { multi = r.0; log = r.1; state = r.2 };
        out = t.out ++ wrap_all (tablet_paxos t.tablet_id) r.3;
      })
  handle_content endpoint_id (sync_message (sync_request m)) t =
      handle_sync_request endpoint_id m t.tablet.log >>= λ sent.
      ok (record t { out = t.out ++ wrap_all (tablet_sync t.tablet_id) sent })
  handle_content endpoint_id (sync_message (sync_response m)) t =
      handle_sync_response m t.tablet.log t.tablet.state >>= λ r.
      ok (record t { tablet = record t.tablet { log = r.0; state = r.1 } })
  handle_content endpoint_id _ t = ok t

  unfoldable pub handle_wrapper : EndpointId → MessageWrapper → TabletServer → Result TabletServer
  unfolding handle_content
  handle_wrapper endpoint_id (client_message (request m)) t =
      ok (record t { async_queue = handle_request endpoint_id m t.async_queue })
  handle_wrapper endpoint_id (tablet_message m) t = handle_content endpoint_id m.content t
  handle_wrapper endpoint_id _ t = ok t

  unfoldable pub handle : IncomingMessage → TabletServer → Result TabletServer
  unfolding handle_wrapper
  handle incoming t = handle_wrapper incoming.endpoint_id incoming.message t
