-- ===== src/Slave/ClientRequestHandler/Tests.antt =====
-- The theorems on requests, at a write to an empty tablet.
use universal_db.Base.{ℕ, ◌≡◌, ◌+◌, refl, some, [], ◌∷◌, arith}
use universal_db.Base.Bytes.{bytes_eq}
use universal_db.Base.Assoc.{find, insert}
use universal_db.Base.Result.{Result, ok, thrown, assertion, Ensures}
use universal_db.Net.EndpointId.{EndpointId}
use universal_db.Proto.Paxos.{PaxosLogEntry, string_value, uint64_value}
use universal_db.Proto.Paxos
use universal_db.Proto.Client.{ClientRequest, write_type}
use universal_db.Paxos.Single.{SinglePaxosHandler, new_handler}
use universal_db.Slave.KvStore
use universal_db.Slave.ClientRequestHandler.{
  Tablet, TabletState, RequestTask, request_task, on_write, write_of,
}
use universal_db.Slave.ClientRequestHandler.Calls.{Step, request_task-Step}
use universal_db.Slave.ClientRequestHandler.Attempts.{Answers, attempts, request_answered}
use universal_db.Slave.ClientRequestHandler.Duplicate.{on_write_twice}

abbrev client : EndpointId
client = record { ip_string = 49 ∷ []; port = 80 }

abbrev request : ClientRequest
request = record {
  request_id = 114 ∷ [];
  request_type = write_type;
  database_id = [];
  table_id = [];
  key = 107 ∷ [];
  value = some (97 ∷ []);
  timestamp = some 5;
}

abbrev provider : ℕ → TabletState → Result SinglePaxosHandler
provider index s = ok (
    new_handler
      (record { num_slave_servers = 3; paxos_log_index = index; config_endpoints = client ∷ [] }))

abbrev empty : Tablet
empty = record {
  multi = record { paxos_instances = [] };
  log = record { log = []; available_indices = 0 ∷ []; callbacks = [] };
  state = record {
    paxos_config_manager = record { config_timeline = [] };
    kvstore = record { mvkvs = [] };
    request_id_map = [];
  };
  drawn = 0;
  sent = [];
  responses = [];
}

abbrev task : RequestTask
task = record { endpoint_id = client; message = request; retry_count = 0 }

request_task-Step_example :
    Ensures (Step provider (λ n. n + 1) task empty) (request_task provider (λ n. n + 1) task empty)
request_task-Step_example = request_task-Step provider (λ n. n + 1) task empty

request_answered_example :
    Ensures
      (Answers client (114 ∷ []))
      (attempts provider (λ n. n + 1) task (empty ∷ empty ∷ empty ∷ empty ∷ []))
request_answered_example =
    request_answered provider (λ n. n + 1) client request (empty ∷ empty ∷ empty ∷ empty ∷ [])
      (omega arith)

abbrev entry : PaxosLogEntry
entry = Paxos.write (record {
  request_id = some (114 ∷ []);
  key = some (107 ∷ []);
  value = some (97 ∷ []);
  timestamp = some 5;
})

abbrev written : TabletState
written = record {
  kvstore = record {
    mvkvs =
        (107 ∷ [], record { versions = record { timestamp = 5; value = 97 ∷ [] } ∷ []; lat = 5 })
        ∷ [];
  };
  paxos_config_manager = record { config_timeline = [] };
  request_id_map = (114 ∷ [], 0) ∷ [];
}

on_write_empty : on_write 0 entry empty.state ≡ ok written
unfolding on_write write_of string_value uint64_value KvStore.write find insert
on_write_empty = refl

on_write_twice_example : on_write 1 entry written ≡ thrown assertion
on_write_twice_example = on_write_twice 0 1 entry empty.state written on_write_empty
