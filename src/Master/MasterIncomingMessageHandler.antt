-- ===== src/Master/MasterIncomingMessageHandler.antt =====
-- MasterIncomingMessageHandler of src/master/MasterIncomingMessageHandler.cc: a master takes the
-- messages of clients, of slaves and of the other masters.
pub mod Keeping
pub mod Replica
use universal_db.Base.{ℕ, List, [], ◌∷◌, ◌++◌}
use universal_db.Base.Result.{Result, ok, ◌>>=◌}
use universal_db.Net.EndpointId.{EndpointId}
use universal_db.Net.IncomingMessage.{IncomingMessage}
use universal_db.Net.Sent.{Sent, wrap_all}
use universal_db.Proto.Client.{find_key_range_request}
use universal_db.Proto.Sync.{sync_request, sync_response}
use universal_db.Proto.Wrapper.{
  MessageWrapper, MasterMessage, client_message, master_message, slave_message, paxos_message,
  sync_message, key_space_changed,
}
use universal_db.Async.Queue.{AsyncQueue}
use universal_db.Paxos.Multi.{handle_incoming_message}
use universal_db.Paxos.Single.{SinglePaxosHandler}
use universal_db.Server.LogSyncer.{handle_sync_request, handle_sync_response}
use universal_db.Master.KeySpaceManager.{MasterState}
use universal_db.Master.KeySpaceManager.FindKey.{
  MasterNode, FindTask, handle_find_key, handle_key_space_changed,
}
use universal_db.Master.Functors.{send_paxos, send_sync}

-- The master with the queues of its tasks, and what goes out to the other masters.
pub record MasterServer : Type 0 where
  pub node : MasterNode
  pub async_queue : AsyncQueue FindTask
  pub local_async_queue : AsyncQueue (EndpointId × ℕ)
  pub out : List (Sent MessageWrapper)

module _ (instance_provider : ℕ → MasterState → Result SinglePaxosHandler) where
  unfoldable pub handle_master_message :
      EndpointId → MasterMessage → MasterServer → Result MasterServer
  handle_master_message endpoint_id (paxos_message m) s =
      handle_incoming_message instance_provider endpoint_id m s.node.multi s.node.log s.node.state
      >>= λ r. ok (record s {
        node = record s.node { multi = r.0; log = r.1; state = r.2 };
        out = s.out ++ wrap_all send_paxos r.3;
      })
  handle_master_message endpoint_id (sync_message (sync_request m)) s =
      handle_sync_request endpoint_id m s.node.log >>= λ sent.
      ok (record s { out = s.out ++ wrap_all send_sync sent })
  handle_master_message endpoint_id (sync_message (sync_response m)) s =
      handle_sync_response m s.node.log s.node.state >>= λ r.
      ok (record s { node = record s.node { log = r.0; state = r.1 } })
  handle_master_message endpoint_id _ s = ok s

  unfoldable pub handle_wrapper : EndpointId → MessageWrapper → MasterServer → Result MasterServer
  unfolding handle_master_message
  handle_wrapper endpoint_id (client_message (find_key_range_request m)) s =
      ok (record s { async_queue = handle_find_key endpoint_id m s.async_queue })
  handle_wrapper endpoint_id (slave_message (key_space_changed generation)) s = ok (record s {
    local_async_queue = handle_key_space_changed endpoint_id generation s.local_async_queue;
  })
  handle_wrapper endpoint_id (master_message m) s = handle_master_message endpoint_id m s
  handle_wrapper endpoint_id _ s = ok s

  unfoldable pub handle : IncomingMessage → MasterServer → Result MasterServer
  unfolding handle_wrapper
  handle incoming s = handle_wrapper incoming.endpoint_id incoming.message s
