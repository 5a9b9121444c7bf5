-- ===== src/Slave/TabletParticipant.antt =====
-- TabletParticipant of src/slave/TabletParticipant.h and TabletParticipant.cc: a tablet as it is
-- built, and what happens at it. Its scheduler calls `_incoming_message_handler.handle` with each
-- message, and its timer the jobs of AsyncQueue and of LogSyncer.
pub mod Shadow
pub mod Steps
pub mod Agreement
mod Tests
use universal_db.Base.{ℕ, List, [], ◌∷◌, ◌++◌}
use universal_db.Base.Result.{Result, ok, ◌>>=◌}
use universal_db.Net.EndpointId.{EndpointId}
use universal_db.Net.IncomingMessage.{IncomingMessage}
use universal_db.Net.Sent.{wrap_all}
use universal_db.Async.Queue.{new_queue, fire}
use universal_db.Paxos.Config.{
  PaxosConfigManager, new_config_manager, on_reconfig_started, latest_config,
}
use universal_db.Paxos.Log.{PaxosLog, Callback, new_log, add_callback}
use universal_db.Paxos.Provider.{provide}
use universal_db.Paxos.Single.{SinglePaxosHandler}
use universal_db.Server.KeySpaceRange.{KeySpaceRange}
use universal_db.Server.LogSyncer.{sync}
use universal_db.Slave.KvStore.{empty_store}
use universal_db.Slave.ClientRequestHandler.{TabletState, register, request_task}
use universal_db.Slave.Functors.{tablet_paxos, tablet_sync}
use universal_db.Slave.IncomingMessageHandler.{TabletServer, handle}

-- The callback of PaxosConfigManager.
unfoldable pub on_reconfig : Callback TabletState
on_reconfig =
    on_reconfig_started (λ s. s.paxos_config_manager) (λ m s. record s { paxos_config_manager = m })

-- The constructor; `endpoints` is what `get_all_endpoints` of the slave connections returns. 6 is
-- kReconfigStarted.
unfoldable pub new_state : List EndpointId → TabletState
new_state endpoints = record {
  paxos_config_manager = new_config_manager 0 endpoints;
  kvstore = empty_store;
  request_id_map = [];
}

unfoldable pub tablet_log : PaxosLog TabletState
unfolding on_reconfig
tablet_log = register (add_callback 6 on_reconfig new_log)

unfoldable pub new_participant : KeySpaceRange → List EndpointId → TabletServer
unfolding new_state tablet_log
new_participant tablet_id endpoints = record {
  tablet_id = tablet_id;
  tablet = record {
    multi = record { paxos_instances = [] };
    log = tablet_log;
    state = new_state endpoints;
    drawn = 0;
    sent = [];
    responses = [];
  };
  async_queue = new_queue;
  out = [];
}

-- What the scheduler and the timer call.
pub data Event : Type 0 where
  message : IncomingMessage → Event
  queue_timer : Event
  sync_timer : Event

module _ (num_slave_servers : ℕ) (random : ℕ → ℕ) where
  unfoldable pub instance_provider : ℕ → TabletState → Result SinglePaxosHandler
  instance_provider = provide num_slave_servers (λ s. s.paxos_config_manager)

  -- The oldest job of the queue; what the instances send is wrapped.
  unfoldable pub run_queue : TabletServer → Result TabletServer
  unfolding instance_provider
  run_queue t =
      fire (request_task instance_provider random) t.async_queue (record t.tablet { sent = [] })
      >>= λ r. ok (record t {
        async_queue = r.0;
        tablet = r.1;
        out = t.out ++ wrap_all (tablet_paxos t.tablet_id) r.1.sent;
      })

  -- The repeated job of LogSyncer.
  unfoldable pub run_sync : TabletServer → Result TabletServer
  run_sync t = do
    endpoints ← latest_config t.tablet.state.paxos_config_manager
    sent ← sync endpoints t.tablet.log
    ok (record t { out = t.out ++ wrap_all (tablet_sync t.tablet_id) sent })

  unfoldable pub step : Event → TabletServer → Result TabletServer
  unfolding instance_provider run_queue run_sync
  step (message incoming) t = handle instance_provider incoming t
  step queue_timer t = run_queue t
  step sync_timer t = run_sync t

  unfoldable pub run : List Event → TabletServer → Result TabletServer
  unfolding step
  run [] t = ok t
  run (e ∷ es) t = step e t >>= λ t'. run es t'
