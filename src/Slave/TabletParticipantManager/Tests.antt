-- ===== src/Slave/TabletParticipantManager/Tests.antt =====
-- The theorems on routing, at one tablet that keeps the messages that it is given.
use universal_db.Base.{◌≡◌, none, some, List, [], ◌∷◌}
use universal_db.Base.Assoc.{find}
use universal_db.Base.Bytes.{bytes_beq}
use universal_db.Net.IncomingMessage.{IncomingMessage}
use universal_db.Proto.Client.{ClientRequest, request, read_type}
use universal_db.Proto.Wrapper.{client_message}
use universal_db.Server.KeySpaceRange.{KeySpaceRange, range_eq, range_beq, key_beq}
use universal_db.Slave.TabletParticipantManager.{
  TabletParticipantManager, handle_key_space_change, handle_client_request,
}
use universal_db.Slave.TabletParticipantManager.Routing.{
  Handled, handle_key_space_change-find, handle_client_request-Handled,
}

abbrev table : KeySpaceRange
table = record { database_id = 100 ∷ []; table_id = 116 ∷ []; start_key = none; end_key = none }

abbrev other : KeySpaceRange
other = record { database_id = 100 ∷ []; table_id = 117 ∷ []; start_key = none; end_key = none }

abbrev manager : TabletParticipantManager (List IncomingMessage)
manager = record { tp_map = (table, []) ∷ [] }

abbrev asked : ClientRequest
asked = record {
  request_id = 114 ∷ [];
  request_type = read_type;
  database_id = 100 ∷ [];
  table_id = 116 ∷ [];
  key = 107 ∷ [];
  value = none;
  timestamp = some 5;
}

abbrev incoming : IncomingMessage
incoming = record {
  endpoint_id = record { ip_string = 49 ∷ []; port = 80 };
  message = client_message (request asked);
}

handle_key_space_change-find_example :
    find other (handle_key_space_change (λ _. []) (table ∷ other ∷ []) manager).tp_map ≡ some []
unfolding find range_beq key_beq bytes_beq
handle_key_space_change-find_example =
    handle_key_space_change-find (λ _. []) (table ∷ other ∷ []) manager other

handle_client_request-Handled_example :
    Handled
      (λ m q. m ∷ q)
      asked
      incoming
      manager.tp_map
      (
        (handle_client_request (λ m q. m ∷ q) asked incoming manager).0.tp_map,
        (handle_client_request (λ m q. m ∷ q) asked incoming manager).1,
      )
handle_client_request-Handled_example =
    handle_client_request-Handled (λ m q. m ∷ q) asked incoming manager
