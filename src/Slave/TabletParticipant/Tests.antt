-- ===== src/Slave/TabletParticipant/Tests.antt =====
-- The theorem on the replicas of a tablet: both learn of a write, and one also answers a client and
-- asks its peers for entries.
use universal_db.Base.{◌≡◌, refl, ap, sym, ◌∙◌, some_inj, none, some, List, [], ◌∷◌, arith}
use universal_db.Base.{inc64}
use universal_db.Base.Bytes.{bytes_beq}
use universal_db.Base.Assoc.{find, assign, insert}
use universal_db.Base.Result.{ok, thrown}
use universal_db.Net.EndpointId.{EndpointId}
use universal_db.Net.IncomingMessage.{IncomingMessage}
use universal_db.Proto.Client.{request, write_type}
use universal_db.Proto.Paxos
use universal_db.Proto.Sync.{sync_response}
use universal_db.Proto.Wrapper.{client_message, tablet_message, sync_message}
use universal_db.Async.Queue.{new_queue, add_task, schedule_once, fire, after_call}
use universal_db.Net.Sent.{wrap_all, wrap_sent}
use universal_db.Proto.Paxos.{entry_content_case, string_value, uint64_value}
use universal_db.Paxos.Config.{latest_config, new_config_manager}
use universal_db.Paxos.Log.{
  get_entry, set_entry, set_entry_at, add_callback, new_log, next_available_index, take_index,
  push_indices, invoke_from, invoke, call_all,
}
use universal_db.Server.KeySpaceRange.{build_range, convert}
use universal_db.Server.LogSyncer.{
  handle_sync_request, handle_sync_response, set_entries, sync, build_sync_request, split_indices,
}
use universal_db.Slave.ClientRequestHandler.{
  register, on_write, write_of, handle_request, request_task, answer, respond,
}
use universal_db.Slave.Functors.{tablet_sync}
use universal_db.Slave.KvStore
use universal_db.Server.KeySpaceRange.{KeySpaceRange}
use universal_db.Slave.IncomingMessageHandler.{TabletServer, handle}
use universal_db.Slave.TabletParticipant.{
  Event, message, queue_timer, sync_timer, run, new_participant,
}
use universal_db.Slave.TabletParticipant.Agreement.{SameData, tablets_agree}
use universal_db.Paxos.Multi.Shadowed.{SameEntries}

abbrev peer : EndpointId
peer = record { ip_string = 49 ∷ []; port = 80 }

abbrev table : KeySpaceRange
table = record { database_id = []; table_id = []; start_key = none; end_key = none }

abbrev learned : IncomingMessage
learned = record {
  endpoint_id = peer;
  message = tablet_message (record {
    range = record { database_id = []; table_id = []; start_key = none; end_key = none };
    content = sync_message (
        sync_response (record {
          missing_entries =
              record {
                index = 0;
                entry = Paxos.write (record {
                  request_id = some (114 ∷ []);
                  key = some (107 ∷ []);
                  value = some (97 ∷ []);
                  timestamp = some 5;
                });
              }
              ∷ [];
        }));
  });
}

abbrev asked : IncomingMessage
asked = record {
  endpoint_id = peer;
  message = client_message (
      request (record {
        request_id = 114 ∷ [];
        request_type = write_type;
        database_id = [];
        table_id = [];
        key = 107 ∷ [];
        value = some (97 ∷ []);
        timestamp = some 5;
      }));
}

abbrev busy : List Event
busy = message asked ∷ message learned ∷ queue_timer ∷ sync_timer ∷ []

abbrev quiet : List Event
quiet = message learned ∷ []

abbrev after : List Event → TabletServer
after es = elim (run 3 (λ n. n) es (new_participant table (peer ∷ []))) [
  | ok t ↦ t
  | thrown _ ↦ new_participant table (peer ∷ [])
]

busy_runs : run 3 (λ n. n) busy (new_participant table (peer ∷ [])) ≡ ok (after busy)
unfolding run new_participant handle handle_sync_request handle_sync_response set_entries set_entry
    register add_callback find new_log assign set_entry_at next_available_index take_index insert
    inc64 invoke_from invoke entry_content_case on_write write_of string_value uint64_value
    KvStore.write call_all new_queue handle_request add_task schedule_once fire request_task answer
    respond after_call latest_config new_config_manager sync build_sync_request split_indices
    wrap_all wrap_sent tablet_sync build_range convert push_indices bytes_beq
busy_runs = refl

quiet_runs : run 3 (λ n. n) quiet (new_participant table (peer ∷ [])) ≡ ok (after quiet)
unfolding run new_participant handle handle_sync_request handle_sync_response set_entries set_entry
    register add_callback find new_log assign set_entry_at next_available_index take_index insert
    inc64 invoke_from invoke entry_content_case on_write write_of string_value uint64_value
    KvStore.write call_all new_queue handle_request add_task schedule_once fire request_task answer
    respond after_call latest_config new_config_manager sync build_sync_request split_indices
    wrap_all wrap_sent tablet_sync build_range convert push_indices bytes_beq
quiet_runs = refl

same_log : (after busy).tablet.log ≡ (after quiet).tablet.log
unfolding run new_participant handle handle_sync_request handle_sync_response set_entries set_entry
    register add_callback find new_log assign set_entry_at next_available_index take_index insert
    inc64 invoke_from invoke entry_content_case on_write write_of string_value uint64_value
    KvStore.write call_all new_queue handle_request add_task schedule_once fire request_task answer
    respond after_call latest_config new_config_manager sync build_sync_request split_indices
    wrap_all wrap_sent tablet_sync build_range convert push_indices bytes_beq
same_log = refl

same_logs : SameEntries (after busy).tablet.log (after quiet).tablet.log
same_logs j x y a b = some_inj (sym a ∙ ap (get_entry j) same_log ∙ b)

tablets_agree_example : SameData (after busy).tablet.state (after quiet).tablet.state
tablets_agree_example =
    tablets_agree table (peer ∷ []) 3 (λ n. n) (λ n. n) busy quiet (after busy) (after quiet)
      (tt, omega arith) (omega arith) busy_runs quiet_runs same_logs
      (ap next_available_index same_log)
