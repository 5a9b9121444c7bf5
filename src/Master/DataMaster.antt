-- ===== src/Master/DataMaster.antt =====
-- DataMaster of src/master/DataMaster.h and DataMaster.cc: a master as it is built, and what happens
-- at it. Its scheduler calls `_master_handler.handle` with each message, and its timer the jobs of
-- the two queues of tasks and of LogSyncer.
pub mod Groups
pub mod Callbacks
pub mod Tracked
pub mod Tasks
pub mod Steps
pub mod Agreement
mod Tests
use universal_db.Base.{ℕ, List, [], ◌∷◌, ◌++◌}
use universal_db.Base.Result.{Result, ok, ◌>>=◌}
use universal_db.Net.EndpointId.{EndpointId}
use universal_db.Net.IncomingMessage.{IncomingMessage}
use universal_db.Net.Sent.{wrap_all}
use universal_db.Async.Queue.{new_queue, fire}
use universal_db.Paxos.Config.{new_config_manager, on_reconfig_started, latest_config}
use universal_db.Paxos.Log.{PaxosLog, Callback, new_log, add_callback}
use universal_db.Paxos.Provider.{provide}
use universal_db.Paxos.Single.{SinglePaxosHandler}
use universal_db.Server.LogSyncer.{sync}
use universal_db.Master.Functors.{send_paxos, send_sync}
use universal_db.Master.GroupConfigManager.{SlaveGroupId}
use universal_db.Master.GroupConfigManager
use universal_db.Master.KeySpaceManager.{MasterState, register}
use universal_db.Master.KeySpaceManager
use universal_db.Master.KeySpaceManager.FindKey.{find_key_task, commit_task}
use universal_db.Master.MasterIncomingMessageHandler.{MasterServer, handle}

-- "slave_group_0"
unfoldable pub group_id : SlaveGroupId
group_id =
    b's' ∷ b'l' ∷ b'a' ∷ b'v' ∷ b'e' ∷ b'_' ∷ b'g' ∷ b'r' ∷ b'o' ∷ b'u' ∷ b'p' ∷ b'_' ∷ b'0' ∷ []

-- The callback of PaxosConfigManager.
unfoldable pub on_reconfig : Callback MasterState
on_reconfig =
    on_reconfig_started (λ s. s.paxos_config_manager) (λ m s. record s { paxos_config_manager = m })

-- The constructor. 6 is kReconfigStarted.
unfoldable pub master_log : PaxosLog MasterState
unfolding on_reconfig
master_log = register (add_callback 6 on_reconfig new_log)

unfoldable pub new_state : List EndpointId → List EndpointId → MasterState
unfolding group_id
new_state slave_endpoints master_endpoints = KeySpaceManager.set_first_config group_id (record {
  paxos_config_manager = new_config_manager 0 master_endpoints;
  slave_group_ranges = [];
  config_manager =
      GroupConfigManager.set_first_config group_id slave_endpoints
        (record { slave_group_config = [] });
  to_slaves = [];
})

unfoldable pub new_master : List EndpointId → List EndpointId → MasterServer
unfolding new_state master_log
new_master slave_endpoints master_endpoints = record {
  node = record {
    multi = record { paxos_instances = [] };
    log = master_log;
    state = new_state slave_endpoints master_endpoints;
    drawn = 0;
    sent = [];
    responses = [];
  };
  async_queue = new_queue;
  local_async_queue = new_queue;
  out = [];
}

-- What the scheduler and the timer call.
pub data Event : Type 0 where
  message : IncomingMessage → Event
  queue_timer : Event
  local_queue_timer : Event
  sync_timer : Event

module _ (num_slave_servers : ℕ) (random : ℕ → ℕ) where
  unfoldable pub instance_provider : ℕ → MasterState → Result SinglePaxosHandler
  instance_provider = provide num_slave_servers (λ s. s.paxos_config_manager)

  -- The oldest job of a queue; what the instances send is wrapped.
  unfoldable pub run_queue : MasterServer → Result MasterServer
  unfolding instance_provider
  run_queue s =
      fire (find_key_task instance_provider random) s.async_queue (record s.node { sent = [] })
      >>= λ r.
          ok (record s {
            async_queue = r.0;
            node = r.1;
            out = s.out ++ wrap_all send_paxos r.1.sent;
          })

  unfoldable pub run_local_queue : MasterServer → Result MasterServer
  unfolding instance_provider
  run_local_queue s =
      fire (commit_task instance_provider random) s.local_async_queue (record s.node { sent = [] })
      >>= λ r. ok (record s {
        local_async_queue = r.0;
        node = r.1;
        out = s.out ++ wrap_all send_paxos r.1.sent;
      })

  -- The repeated job of LogSyncer.
  unfoldable pub run_sync : MasterServer → Result MasterServer
  run_sync s = do
    endpoints ← latest_config s.node.state.paxos_config_manager
    sent ← sync endpoints s.node.log
    ok (record s { out = s.out ++ wrap_all send_sync sent })

  unfoldable pub step : Event → MasterServer → Result MasterServer
  unfolding instance_provider run_queue run_local_queue run_sync
  step (message incoming) s = handle instance_provider incoming s
  step queue_timer s = run_queue s
  step local_queue_timer s = run_local_queue s
  step sync_timer s = run_sync s

  unfoldable pub run : List Event → MasterServer → Result MasterServer
  unfolding step
  run [] s = ok s
  run (e ∷ es) s = step e s >>= λ s'. run es s'
