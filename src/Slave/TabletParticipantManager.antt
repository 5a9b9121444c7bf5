-- ===== src/Slave/TabletParticipantManager.antt =====
-- TabletParticipantManager of src/slave/TabletParticipantManager.h and TabletParticipantManager.cc:
-- the tablets of a slave, by their ranges. A participant, of type `P`, is made by `tp_provider` and
-- takes messages by `queue_message` of its scheduler; both are parameters.
pub mod Routing
mod Tests
use universal_db.Base.{ℕ, Bool, true, false, Option, none, some, List, [], ◌∷◌, if◌then◌else◌}
use universal_db.Base.Eq.{◌==◌}
use universal_db.Base.Assoc.{find, insert}
use universal_db.Net.EndpointId.{EndpointId}
use universal_db.Net.IncomingMessage.{IncomingMessage}
use universal_db.Proto.Client.{ClientRequest, ClientResponse, ClientMessage, request, error}
use universal_db.Proto.Wrapper.{MessageWrapper, client_message, tablet_message, TabletMessage}
use universal_db.Server.KeySpaceRange.{KeySpaceRange, range_eq, within_range, convert}

pub record TabletParticipantManager (P : Type 0) : Type 0 where
  pub tp_map : List (KeySpaceRange × P)

module _ {P : Type 0} where
  -- The loop over the new ranges.
  unfoldable pub add_tablets :
      (KeySpaceRange → P) → List KeySpaceRange → List (KeySpaceRange × P) → List (KeySpaceRange × P)
  add_tablets tp_provider [] tps = tps
  add_tablets tp_provider (range ∷ ranges) tps =
      add_tablets tp_provider ranges
        (elim (find range tps) [ none ↦ insert range (tp_provider range) tps | some _ ↦ tps ])

  unfoldable pub handle_key_space_change :
      (KeySpaceRange → P)
      → List KeySpaceRange
      → TabletParticipantManager P
      → TabletParticipantManager P
  unfolding add_tablets
  handle_key_space_change tp_provider ranges m = record {
    tp_map = add_tablets tp_provider ranges m.tp_map;
  }

  -- The loops that queue a message at the first tablet that passes a test, and whether there is
  -- one.
  unfoldable pub queue_at :
      (KeySpaceRange → Bool) → (P → P) → List (KeySpaceRange × P) → List (KeySpaceRange × P) × Bool
  queue_at test queue [] = ([], false)
  queue_at test queue ((range, tp) ∷ tps) =
      let (rest, done) = queue_at test queue tps in
      if test range then ((range, queue tp) ∷ tps, true) else ((range, tp) ∷ rest, done)

  module _ (queue_message : IncomingMessage → P → P) where
    -- The second part is what `_respond_callback` is called with.
    unfoldable pub handle_client_request :
        ClientRequest
        → IncomingMessage
        → TabletParticipantManager P
        → TabletParticipantManager P × List (EndpointId × ClientResponse)
    handle_client_request m incoming manager =
        let (tps, done) =
          queue_at (λ range. within_range range m.database_id m.table_id m.key)
            (queue_message incoming) manager.tp_map in
        (
          record { tp_map = tps },
          if done
              then []
              else (incoming.endpoint_id, record { value = none; error_code = error }) ∷ [],
        )

    unfoldable pub handle_tablet_message :
        TabletMessage → IncomingMessage → TabletParticipantManager P → TabletParticipantManager P
    handle_tablet_message m incoming manager = record {
      tp_map =
          (queue_at (λ range. range == convert m.range) (queue_message incoming) manager.tp_map).0;
    }

    unfoldable pub handle :
        IncomingMessage
        → TabletParticipantManager P
        → TabletParticipantManager P × List (EndpointId × ClientResponse)
    unfolding handle_client_request handle_tablet_message
    handle incoming manager = elim incoming.message [
      | client_message (request m) ↦ handle_client_request m incoming manager
      | tablet_message m ↦ (handle_tablet_message m incoming manager, [])
      | _ ↦ (manager, [])
    ]
