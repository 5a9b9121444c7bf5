-- ===== src/Slave/SlaveKeySpaceManager/Tests.antt =====
-- The theorem on the key space of a slave group, at its first change.
use universal_db.Base.{ℕ, ◌+◌, ◌≡◌, refl, none, [], ◌∷◌, arith, inc32}
use universal_db.Base.Assoc.{find, insert}
use universal_db.Base.Result.{Result, ok}
use universal_db.Net.EndpointId.{EndpointId}
use universal_db.Net.Sent.{broadcast}
use universal_db.Proto.Wrapper.{KeySpaceSelection, key_space_changed}
use universal_db.Async.Queue.{terminate}
use universal_db.Paxos.Single.{SinglePaxosHandler, new_handler}
use universal_db.Server.KeySpaceRange.{KeySpaceRange, range_eq, convert}
use universal_db.Slave.TabletParticipantManager.{handle_key_space_change, add_tablets}
use universal_db.Slave.SlaveKeySpaceManager.{
  SlaveState, SlaveNode, ChangeTask, on_key_space_changed, changed_of, changed_entry, change_task,
  reply,
}
use universal_db.Slave.SlaveKeySpaceManager.Generations.{Changed, change_committed}

abbrev master : EndpointId
master = record { ip_string = 49 ∷ []; port = 80 }

abbrev table : KeySpaceRange
table = record { database_id = 100 ∷ []; table_id = 116 ∷ []; start_key = none; end_key = none }

abbrev selection : KeySpaceSelection
selection = record {
  new_ranges =
      record { database_id = 100 ∷ []; table_id = 116 ∷ []; start_key = none; end_key = none } ∷ [];
  generation = 1;
}

abbrev task : ChangeTask
task = record { endpoint_id = master; message = selection }

abbrev first : SlaveState ℕ
first = record {
  paxos_config_manager = record { config_timeline = [] };
  key_space = record { ranges = []; generation = 0 };
  participants = record { tp_map = [] };
  replies = [];
}

abbrev second : SlaveState ℕ
second = record {
  paxos_config_manager = record { config_timeline = [] };
  key_space = record { ranges = table ∷ []; generation = 1 };
  participants = record { tp_map = (table, 5) ∷ [] };
  replies = broadcast (master ∷ []) (key_space_changed 1) ∷ [];
}

abbrev node : SlaveNode ℕ
node = record {
  multi = record { paxos_instances = [] };
  log = record { log = []; available_indices = 0 ∷ []; callbacks = [] };
  state = first;
  drawn = 0;
  sent = [];
}

abbrev provider : ℕ → SlaveState ℕ → Result SinglePaxosHandler
provider index s = ok (
    new_handler
      (record { num_slave_servers = 3; paxos_log_index = index; config_endpoints = master ∷ [] }))

first_change :
    on_key_space_changed (λ _. 5) (master ∷ []) 0 (changed_entry selection) first ≡ ok second
unfolding on_key_space_changed changed_entry changed_of reply inc32 handle_key_space_change
    add_tablets find insert convert
first_change = refl

change_committed_example :
    Changed (λ _. 5) selection first second
    × (change_task provider (λ n. n + 1) task (record node { state = second })
        ≡ ok (task, record node { state = reply (master ∷ []) 1 second }, terminate))
change_committed_example =
    change_committed provider (λ n. n + 1) (λ _. 5) (master ∷ []) task 0 node second (omega arith)
      first_change
