-- ===== src/Slave/ClientRequestHandler.antt =====
-- ClientRequestHandler of src/slave/ClientRequestHandler.h and ClientRequestHandler.cc: a client's
-- read or write becomes an entry of the tablet's log, and is answered once the log has it.
pub mod Calls
pub mod Attempts
pub mod Duplicate
mod Tests
use universal_db.Base.{
  ℕ, ◌+◌, Bool, true, false, Option, none, some, List, [], ◌∷◌, ◌++◌, leb, if◌then◌else◌,
}
use universal_db.Base.Eq.{◌==◌, nat_eq}
use universal_db.Base.Bytes.{Bytes, bytes_eq}
use universal_db.Base.Assoc.{find, insert}
use universal_db.Base.Result.{Result, ok, thrown, assertion, undefined, ◌>>=◌}
use universal_db.Net.EndpointId.{EndpointId}
use universal_db.Net.Sent.{Sent}
use universal_db.Proto.Paxos.{PaxosLogEntry, Read, Write, PaxosMessage, string_value, uint64_value}
use universal_db.Proto.Paxos
use universal_db.Proto.Client.{
  ClientRequest, ClientResponse, RequestType, read_type, write_type, unset_type, other_type,
  success, error,
}
use universal_db.Async.Queue.{AsyncQueue, Wait, terminate, again, add_task}
use universal_db.Paxos.Config.{PaxosConfigManager}
use universal_db.Paxos.Log.{PaxosLog, Callback, add_callback, get_entry}
use universal_db.Paxos.Multi.{MultiPaxosHandler}
use universal_db.Paxos.Multi
use universal_db.Paxos.Single.{SinglePaxosHandler}
use universal_db.Slave.KvStore.{KvStore, read_lat}
use universal_db.Slave.KvStore

abbrev pub retry_limit : ℕ
retry_limit = 3

abbrev pub wait_for_paxos : ℕ
wait_for_paxos = 100

-- What the callbacks derive from the log.
pub record TabletState : Type 0 where
  pub paxos_config_manager : PaxosConfigManager
  pub kvstore : KvStore
  pub request_id_map : List (Bytes × ℕ)

-- What the tasks work on. `drawn` counts the random numbers that were drawn; `responses` are what
-- ClientRespond is called with, and `sent` what the Paxos instances send.
pub record Tablet : Type 0 where
  pub multi : MultiPaxosHandler
  pub log : PaxosLog TabletState
  pub state : TabletState
  pub drawn : ℕ
  pub sent : List (Sent PaxosMessage)
  pub responses : List (EndpointId × ClientResponse)

-- What the lambda of `handle_request` captures.
pub record RequestTask : Type 0 where
  pub endpoint_id : EndpointId
  pub message : ClientRequest
  pub retry_count : ℕ

-- entry.read() and entry.write() of another kind of entry are the default messages.
unfoldable pub read_of : PaxosLogEntry → Read
read_of (Paxos.read m) = m
read_of _ = record { request_id = none; key = none; timestamp = none }

unfoldable pub write_of : PaxosLogEntry → Write
write_of (Paxos.write m) = m
write_of _ = record { request_id = none; key = none; value = none; timestamp = none }

unfoldable pub on_read : Callback TabletState
unfolding read_of
on_read index entry s =
    let m = read_of entry in
    KvStore.read (string_value m.key) (uint64_value m.timestamp) s.kvstore >>= λ r. ok (record s {
      kvstore = r.1;
      request_id_map = insert (string_value m.request_id) index s.request_id_map;
    })

unfoldable pub on_write : Callback TabletState
unfolding write_of
on_write index entry s =
    let m = write_of entry in
    KvStore.write (string_value m.key) (string_value m.value) (uint64_value m.timestamp) s.kvstore
    >>= λ kvs. ok (record s {
      kvstore = kvs;
      request_id_map = insert (string_value m.request_id) index s.request_id_map;
    })

-- The constructor: 4 and 5 are kRead and kWrite.
unfoldable pub register : PaxosLog TabletState → PaxosLog TabletState
register l = add_callback 5 on_write (add_callback 4 on_read l)

unfoldable pub respond : EndpointId → ClientResponse → Tablet → Tablet
respond endpoint_id response m = record m {
  responses = m.responses ++ (endpoint_id, response) ∷ [];
}

abbrev pub refused : ClientResponse
refused = record { value = none; error_code = error }

unfoldable pub read_response : Option Bytes → ClientResponse
read_response none = refused
read_response (some value) = record { value = some value; error_code = success }

-- The answer to a request of the type that is in the log, at the index.
unfoldable pub answer :
    RequestType → ℕ → RequestTask → Tablet → Result (RequestTask × Tablet × Wait)
unfolding read_of respond read_response
answer read_type index t m = elim (get_entry index m.log) [
  | none ↦ thrown undefined
  | some entry ↦
      KvStore.read (string_value (read_of entry).key) (uint64_value (read_of entry).timestamp)
        m.state.kvstore
      >>= λ r. ok (
        t,
        respond t.endpoint_id (read_response r.0)
            (record m { state = record m.state { kvstore = r.1 } }),
        terminate,
      )
]
answer write_type index t m =
    ok (t, respond t.endpoint_id (record { value = none; error_code = success }) m, terminate)
answer _ index t m = thrown assertion

-- `message.timestamp().value() <= lat`; a value is above an empty optional.
unfoldable pub is_illegal : ClientRequest → KvStore → Bool
is_illegal message kvs = elim (read_lat message.key kvs) [
  | none ↦ false
  | some lat ↦ leb (uint64_value message.timestamp) lat
]

unfoldable pub log_entry : ClientRequest → Result PaxosLogEntry
log_entry message = elim message.request_type [
  | write_type ↦ ok (
      Paxos.write (record {
        request_id = some message.request_id;
        key = some message.key;
        value = some (string_value message.value);
        timestamp = some (uint64_value message.timestamp);
      }))
  | read_type ↦ ok (
      Paxos.read (record {
        request_id = some message.request_id;
        key = some message.key;
        timestamp = some (uint64_value message.timestamp);
      }))
  | _ ↦ thrown assertion
]

abbrev pub is_write : RequestType → Bool
is_write write_type = true
is_write _ = false

module _ (instance_provider : ℕ → TabletState → Result SinglePaxosHandler) (random : ℕ → ℕ) where
  -- The end of the task: the entry is proposed.
  unfoldable pub propose_entry : RequestTask → Tablet → Result (RequestTask × Tablet × Wait)
  propose_entry t m = do
    entry ← log_entry t.message
    (multi, sent) ← Multi.propose instance_provider entry (random m.drawn) m.multi m.log m.state
    ok (
      record t { retry_count = t.retry_count + 1 },
      record m { multi = multi; drawn = m.drawn + 1; sent = m.sent ++ sent },
      again wait_for_paxos,
    )

  -- One call of the task that `handle_request` adds.
  unfoldable pub request_task : RequestTask → Tablet → Result (RequestTask × Tablet × Wait)
  unfolding answer propose_entry respond is_illegal
  request_task t m = elim (find t.message.request_id m.state.request_id_map) [
    | some index ↦ answer t.message.request_type index t m
    | none ↦
        let propose = propose_entry t m in
        if t.retry_count == retry_limit
        then ok (t, respond t.endpoint_id refused m, terminate)
        else if is_write t.message.request_type
        then (if is_illegal t.message m.state.kvstore
            then ok (t, respond t.endpoint_id refused m, terminate)
            else propose)
        else propose
  ]

unfoldable pub handle_request :
    EndpointId → ClientRequest → AsyncQueue RequestTask → AsyncQueue RequestTask
handle_request endpoint_id message =
    add_task (record { endpoint_id = endpoint_id; message = message; retry_count = 0 })
