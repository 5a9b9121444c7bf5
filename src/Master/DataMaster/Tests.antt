-- ===== src/Master/DataMaster/Tests.antt =====
-- The theorem on the masters: both learn that the group gets a table, and one also asks the others
-- for entries and announces the selection again, since a client asks for a key of the table.
use universal_db.Base.{◌≡◌, refl, ap, sym, ◌∙◌, some_inj, none, List, [], ◌∷◌, arith, inc32}
use universal_db.Base.{inc64}
use universal_db.Base.Bytes.{bytes_beq, bytes_lt}
use universal_db.Base.Assoc.{find, assign, insert}
use universal_db.Base.Result.{ok, thrown}
use universal_db.Net.EndpointId.{EndpointId}
use universal_db.Net.IncomingMessage.{IncomingMessage}
use universal_db.Net.Sent.{wrap_all, wrap_sent}
use universal_db.Proto.Client.{find_key_range_request}
use universal_db.Proto.Paxos
use universal_db.Proto.Paxos.{entry_content_case}
use universal_db.Proto.Sync.{sync_response}
use universal_db.Proto.Wrapper.{client_message, master_message, sync_message}
use universal_db.Async.Queue.{new_queue, add_task, schedule_once, fire, after_call}
use universal_db.Paxos.Config.{latest_config, new_config_manager}
use universal_db.Paxos.Log.{
  get_entry, set_entry, set_entry_at, add_callback, new_log, next_available_index, take_index,
  push_indices, invoke_from, invoke, call_all,
}
use universal_db.Paxos.Multi.Shadowed.{SameEntries}
use universal_db.Server.KeySpaceRange.{build_range, convert, within_range}
use universal_db.Server.LogSyncer.{
  handle_sync_request, handle_sync_response, set_entries, sync, build_sync_request, split_indices,
}
use universal_db.Master.Functors.{send_sync}
use universal_db.Master.GroupConfigManager
use universal_db.Master.GroupConfigManager.{get_endpoints, slaves_of}
use universal_db.Master.KeySpaceManager
use universal_db.Master.KeySpaceManager.{
  register, on_key_space_selected, selected_of, announce, announce_to,
}
use universal_db.Master.KeySpaceManager.FindKey.{
  handle_find_key, find_key_task, scan, any_within, respond,
}
use universal_db.Master.MasterIncomingMessageHandler.{MasterServer, handle}
use universal_db.Master.DataMaster.{
  Event, message, queue_timer, sync_timer, run, new_master, group_id,
}
use universal_db.Master.DataMaster.Agreement.{groups_of, masters_agree}

abbrev peer : EndpointId
peer = record { ip_string = 49 ∷ []; port = 80 }

abbrev slave : EndpointId
slave = record { ip_string = 50 ∷ []; port = 81 }

abbrev learned : IncomingMessage
learned = record {
  endpoint_id = peer;
  message = master_message (
      sync_message (
        sync_response (record {
          missing_entries =
              record {
                index = 0;
                entry = Paxos.key_space_selected (record {
                  slave_group_id = group_id;
                  new_ranges =
                      record {
                        database_id = 100 ∷ [];
                        table_id = [];
                        start_key = none;
                        end_key = none;
                      }
                      ∷ [];
                  generation = 1;
                });
              }
              ∷ [];
        })));
}

abbrev asked : IncomingMessage
asked = record {
  endpoint_id = peer;
  message =
      client_message
        (find_key_range_request (record { database_id = 100 ∷ []; table_id = []; key = 107 ∷ [] }));
}

abbrev busy : List Event
busy = message asked ∷ message learned ∷ queue_timer ∷ sync_timer ∷ []

abbrev quiet : List Event
quiet = message learned ∷ []

abbrev after : List Event → MasterServer
after es = elim (run 3 (λ n. n) es (new_master (slave ∷ []) (peer ∷ []))) [
  | ok s ↦ s
  | thrown _ ↦ new_master (slave ∷ []) (peer ∷ [])
]

busy_runs : run 3 (λ n. n) busy (new_master (slave ∷ []) (peer ∷ [])) ≡ ok (after busy)
unfolding run new_master handle handle_sync_request handle_sync_response set_entries set_entry
    register add_callback find new_log assign set_entry_at next_available_index take_index insert
    inc64 inc32 invoke_from invoke entry_content_case on_key_space_selected selected_of announce
    announce_to get_endpoints slaves_of call_all new_queue handle_find_key add_task schedule_once
    fire find_key_task scan any_within within_range respond after_call latest_config
    new_config_manager sync build_sync_request split_indices wrap_all wrap_sent send_sync
    build_range convert push_indices bytes_beq bytes_lt group_id KeySpaceManager.set_first_config
    GroupConfigManager.set_first_config
busy_runs = refl

quiet_runs : run 3 (λ n. n) quiet (new_master (slave ∷ []) (peer ∷ [])) ≡ ok (after quiet)
unfolding run new_master handle handle_sync_request handle_sync_response set_entries set_entry
    register add_callback find new_log assign set_entry_at next_available_index take_index insert
    inc64 inc32 invoke_from invoke entry_content_case on_key_space_selected selected_of announce
    announce_to get_endpoints slaves_of call_all new_queue handle_find_key add_task schedule_once
    fire find_key_task scan any_within within_range respond after_call latest_config
    new_config_manager sync build_sync_request split_indices wrap_all wrap_sent send_sync
    build_range convert push_indices bytes_beq bytes_lt group_id KeySpaceManager.set_first_config
    GroupConfigManager.set_first_config
quiet_runs = refl

same_log : (after busy).node.log ≡ (after quiet).node.log
unfolding run new_master handle handle_sync_request handle_sync_response set_entries set_entry
    register add_callback find new_log assign set_entry_at next_available_index take_index insert
    inc64 inc32 invoke_from invoke entry_content_case on_key_space_selected selected_of announce
    announce_to get_endpoints slaves_of call_all new_queue handle_find_key add_task schedule_once
    fire find_key_task scan any_within within_range respond after_call latest_config
    new_config_manager sync build_sync_request split_indices wrap_all wrap_sent send_sync
    build_range convert push_indices bytes_beq bytes_lt group_id KeySpaceManager.set_first_config
    GroupConfigManager.set_first_config
same_log = refl

same_logs : SameEntries (after busy).node.log (after quiet).node.log
same_logs j x y a b = some_inj (sym a ∙ ap (get_entry j) same_log ∙ b)

masters_agree_example : groups_of (after busy).node.state ≡ groups_of (after quiet).node.state
masters_agree_example =
    masters_agree (slave ∷ []) (peer ∷ []) 3 (λ n. n) (λ n. n) busy quiet (after busy) (after quiet)
      (tt, omega arith) (omega arith) busy_runs quiet_runs same_logs
      (ap next_available_index same_log)
