-- ===== src/Slave/LocalTransactionManager/Tests.antt =====
-- The theorem on a slave and its tablets: the slave learns of a range, a peer of the new tablet sends
-- it a write, and the tablet takes the message.
use universal_db.Base.{none, some, List, [], ◌∷◌, arith}
use universal_db.Base.Result.{Ensures}
use universal_db.Net.EndpointId.{EndpointId}
use universal_db.Proto.Paxos
use universal_db.Proto.Sync.{sync_response}
use universal_db.Proto.Wrapper.{
  MessageWrapper, TabletContent, SlaveMessage, slave_message, tablet_message,
}
use universal_db.Server.KeySpaceRange.{KeySpaceRange}
use universal_db.Slave.LocalTransactionManager.{
  Event, message, queue_timer, heartbeat_timer, new_slave, run,
}
use universal_db.Slave.LocalTransactionManager
use universal_db.Slave.LocalTransactionManager.Covered.{IsCovered, slave_run-IsCovered}

abbrev peer : EndpointId
peer = record { ip_string = 49 ∷ []; port = 0 }

abbrev range : Paxos.KeySpaceRange
range = record { database_id = 100 ∷ []; table_id = 116 ∷ []; start_key = none; end_key = none }

abbrev tablet_id : KeySpaceRange
tablet_id = record { database_id = 100 ∷ []; table_id = 116 ∷ []; start_key = none; end_key = none }

abbrev from_peer : MessageWrapper → Event
from_peer m = message (record { endpoint_id = peer; message = m })

abbrev events : List Event
events =
    from_peer (
      slave_message (
        SlaveMessage.sync_message (
          sync_response (record {
            missing_entries =
                record {
                  index = 0;
                  entry =
                      Paxos.key_space_changed (record { new_ranges = range ∷ []; generation = 1 });
                }
                ∷ [];
          }))))
    ∷ from_peer (slave_message SlaveMessage.heartbeat)
    ∷ from_peer (
        tablet_message (record {
          range = range;
          content = TabletContent.sync_message (
              sync_response (record {
                missing_entries =
                    record {
                      index = 0;
                      entry = Paxos.write (record {
                        request_id = some (114 ∷ []);
                        key = some (107 ∷ []);
                        value = some (97 ∷ []);
                        timestamp = some 5;
                      });
                    }
                    ∷ [];
              }));
        }))
    ∷ LocalTransactionManager.tablet_message tablet_id
    ∷ LocalTransactionManager.tablet_sync_timer tablet_id
    ∷ heartbeat_timer
    ∷ []

slave_run-IsCovered_example :
    Ensures
      (IsCovered (peer ∷ []) (peer ∷ []))
      (run 3 (λ n. n) (λ _ n. n) events (new_slave (peer ∷ []) (peer ∷ []) (peer ∷ [])))
slave_run-IsCovered_example =
    slave_run-IsCovered (peer ∷ []) (peer ∷ []) (peer ∷ []) 3 (λ n. n) (λ _ n. n) events
      (omega arith)
