-- ===== src/Master/KeySpaceManager/Tests.antt =====
-- The theorems on the key space, at one group that gets its first table.
use universal_db.Base.{ℕ, ◌+◌, none, [], ◌∷◌}
use universal_db.Base.Eq.{nat_eq}
use universal_db.Base.Bytes.{bytes_eq}
use universal_db.Base.Result.{Result, ok, Ensures}
use universal_db.Net.EndpointId.{EndpointId}
use universal_db.Net.Sent.{broadcast}
use universal_db.Proto.Paxos
use universal_db.Paxos.Single.{SinglePaxosHandler, new_handler}
use universal_db.Server.KeySpaceRange.{KeySpaceRange}
use universal_db.Master.GroupConfigManager.{SlaveGroupId, config}
use universal_db.Master.KeySpaceManager.{
  MasterState, key_space, new_key_space, build_new_key_space_selected_message,
}
use universal_db.Master.KeySpaceManager.FindKey.{MasterNode, FindTask, find_key_task}
use universal_db.Master.KeySpaceManager.FindKey.Answers.{Step, find_key_task-Step}

abbrev slave : EndpointId
slave = record { ip_string = 49 ∷ []; port = 80 }

abbrev group : SlaveGroupId
group = 103 ∷ []

abbrev table : KeySpaceRange
table = record { database_id = 100 ∷ []; table_id = 116 ∷ []; start_key = none; end_key = none }

abbrev steady : MasterState
steady = record {
  paxos_config_manager = record { config_timeline = [] };
  slave_group_ranges = (group, key_space [] 0) ∷ [];
  config_manager = record { slave_group_config = (group, config (slave ∷ []) 0) ∷ [] };
  to_slaves = [];
}

abbrev changing : MasterState
changing = record steady {
  slave_group_ranges = (group, new_key_space [] (table ∷ []) 1) ∷ [];
  to_slaves = broadcast (slave ∷ []) (build_new_key_space_selected_message (table ∷ []) 1) ∷ [];
}

abbrev provider : ℕ → MasterState → Result SinglePaxosHandler
provider index s = ok (
    new_handler
      (record { num_slave_servers = 3; paxos_log_index = index; config_endpoints = slave ∷ [] }))

abbrev task : FindTask
task = record {
  endpoint_id = slave;
  message = record { database_id = 100 ∷ []; table_id = 116 ∷ []; key = 107 ∷ [] };
  retry_count = 0;
}

abbrev node : MasterNode
node = record {
  multi = record { paxos_instances = [] };
  log = record { log = []; available_indices = 0 ∷ []; callbacks = [] };
  state = record steady { slave_group_ranges = (group, key_space (table ∷ []) 1) ∷ [] };
  drawn = 0;
  sent = [];
  responses = [];
}

find_key_task-Step_example :
    Ensures (Step provider (λ n. n + 1) task node) (find_key_task provider (λ n. n + 1) task node)
find_key_task-Step_example = find_key_task-Step provider (λ n. n + 1) task node
