-- ===== src/Master/DataMaster/Steps.antt =====
-- The log and the state of a master (src/master/DataMaster.cc) under whatever happens at it.
use universal_db.Base.{ltb, not, ◌&&◌, ℕ, ◌+◌, ◌<◌, ◌≡◌, refl, List, [], ◌∷◌, arith, All, u64_mod}
use universal_db.Base.Eq.{nat_eq, contains}
use universal_db.Base.Bytes.{bytes_eq}
use universal_db.Base.Assoc.{find, has, assign, insert}
use universal_db.Base.Result.{Ensures, Ensures-ok, Ensures-bind}
use universal_db.Net.EndpointId.{EndpointId}
use universal_db.Proto.Paxos.{PaxosLogEntry}
use universal_db.Async.Queue.{fire}
use universal_db.Async.Queue.Keeping.{fire-keeps}
use universal_db.Paxos.Config.{latest_config, new_config_manager}
use universal_db.Paxos.Log.{PaxosLog, set_entry, invoke_from, new_log, add_callback}
use universal_db.Paxos.Log.Invariant.{IsValid}
use universal_db.Paxos.Multi.Shadowed.{set_entry-IsShadowed}
use universal_db.Paxos.Provider.{provide-ProvidesPlaced}
use universal_db.Server.LogSyncer.{sync}
use universal_db.Master.GroupConfigManager
use universal_db.Master.GroupConfigManager.{
  SlaveGroupId, get_endpoints, get_group_id, group_of, slaves_of,
}
use universal_db.Master.KeySpaceManager
use universal_db.Master.KeySpaceManager.{
  GroupRanges, key_space, new_key_space, MasterState, retry_limit, announce, announce_to, register,
}
use universal_db.Master.KeySpaceManager.FindKey.{find_key_task, commit_task}
use universal_db.Master.MasterIncomingMessageHandler.{MasterServer, handle}
use universal_db.Master.MasterIncomingMessageHandler.Keeping.{
  Keeps, MessageNarrow, handle_wrapper-Keeps,
}
use universal_db.Master.DataMaster.{
  Event, message, queue_timer, local_queue_timer, sync_timer, group_id, instance_provider,
  run_queue, run_local_queue, run_sync, step, run, new_state, new_master, master_log,
}
use universal_db.Master.DataMaster.Groups.{IsAlike}
use universal_db.Master.DataMaster.Callbacks.{invoke-Alike}
use universal_db.Master.DataMaster.Tracked.{IsTracked, NodeKept}
use universal_db.Master.DataMaster.Tasks.{find_key_task-keeps, commit_task-keeps}

set_entry-IsTracked :
    (slaves masters : List EndpointId) (index : ℕ) (entry : PaxosLogEntry)
    (l : PaxosLog MasterState) (s : MasterState)
    → index + 1 < u64_mod
    → IsTracked slaves masters l s
    → Ensures (λ r. IsTracked slaves masters r.0 r.1) (set_entry index entry l s)
set_entry-IsTracked slaves masters =
    set_entry-IsShadowed (IsAlike group_id slaves) master_log.callbacks (new_state slaves masters)
      (invoke-Alike group_id slaves)

-- The indices in messages are uint32.
abbrev pub EventNarrow : Event → Type 0
EventNarrow (message incoming) = MessageNarrow incoming.message
EventNarrow _ = Unit {0}

master_log-agree : (j : ℕ) → has j master_log.log ≡ (ltb j 0 && not (contains j []))
unfolding master_log register add_callback new_log find assign
master_log-agree j = ground arith

abbrev master_log-IsValid : IsValid master_log
unfolding master_log register add_callback new_log find assign
master_log-IsValid = record {
  init = [];
  top = 0;
  shape = refl;
  ascending = tt;
  below = tt;
  agree = master_log-agree;
}

pub new_master-Keeps :
    (slaves masters : List EndpointId)
    → Keeps (IsTracked slaves masters) (new_master slaves masters)
unfolding new_master master_log register add_callback new_log find assign invoke_from new_state
    insert KeySpaceManager.set_first_config GroupConfigManager.set_first_config
new_master-Keeps slaves masters = (
  tt,
  record {
    same_callbacks = refl;
    shadow = new_state slaves masters;
    derived = record { valid = master_log-IsValid; derived = refl };
    related = record {
      configs = new_config_manager 0 masters;
      ranges = key_space [] 0;
      announced = [];
      announced' = [];
      first = refl;
      second = refl;
    };
  },
)

module _ (slaves masters : List EndpointId) (num_slave_servers : ℕ) (random : ℕ → ℕ) where
  run_queue-Keeps :
      (s : MasterServer)
      → Keeps (IsTracked slaves masters) s
      → Ensures (Keeps (IsTracked slaves masters)) (run_queue num_slave_servers random s)
  unfolding run_queue
  run_queue-Keeps s h =
      let task = find_key_task (instance_provider num_slave_servers random) random in
      let job = fire task s.async_queue (record s.node { sent = [] }) in
      Ensures-bind _ job _ λ r e.
        Ensures-ok _ job
          (fire-keeps (NodeKept slaves masters) task
            (find_key_task-keeps slaves masters num_slave_servers random) s.async_queue
            (record s.node { sent = [] }) h)
          e

  run_local_queue-Keeps :
      (s : MasterServer)
      → Keeps (IsTracked slaves masters) s
      → Ensures (Keeps (IsTracked slaves masters)) (run_local_queue num_slave_servers random s)
  unfolding run_local_queue
  run_local_queue-Keeps s h =
      let task = commit_task (instance_provider num_slave_servers random) random in
      let job = fire task s.local_async_queue (record s.node { sent = [] }) in
      Ensures-bind _ job _ λ r e.
        Ensures-ok _ job
          (fire-keeps (NodeKept slaves masters) task
            (commit_task-keeps slaves masters num_slave_servers random) s.local_async_queue
            (record s.node { sent = [] }) h)
          e

  step-Keeps :
      (e : Event) (s : MasterServer)
      → EventNarrow e
      → Keeps (IsTracked slaves masters) s
      → Ensures (Keeps (IsTracked slaves masters)) (step num_slave_servers random e s)
  unfolding step handle run_sync instance_provider
  step-Keeps (message incoming) s w h =
      handle_wrapper-Keeps (IsTracked slaves masters) (set_entry-IsTracked slaves masters)
        (instance_provider num_slave_servers random)
        (provide-ProvidesPlaced num_slave_servers (λ s. s.paxos_config_manager))
        incoming.endpoint_id incoming.message s w h
  step-Keeps queue_timer s w h = run_queue-Keeps s h
  step-Keeps local_queue_timer s w h = run_local_queue-Keeps s h
  step-Keeps sync_timer s w h =
      Ensures-bind _ (latest_config s.node.state.paxos_config_manager) _
        λ peers _. Ensures-bind _ (sync peers s.node.log) _ λ _ _. h

  pub run-Keeps :
      (es : List Event) (s : MasterServer)
      → All EventNarrow es
      → Keeps (IsTracked slaves masters) s
      → Ensures (Keeps (IsTracked slaves masters)) (run num_slave_servers random es s)
  unfolding run
  run-Keeps [] s w h = h
  run-Keeps (e ∷ es) s w h = Ensures-bind _ (step num_slave_servers random e s) _ λ s' q.
      run-Keeps es s' w.1 (
        Ensures-ok (Keeps (IsTracked slaves masters)) (step num_slave_servers random e s)
          (step-Keeps e s w.0 h) q)
