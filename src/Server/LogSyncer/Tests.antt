-- ===== src/Server/LogSyncer/Tests.antt =====
-- The theorems on syncing: a node that lacks entry 0 asks a peer that has the entries 0
-- and 1. The callback of the node fails an assertion on some reconfigurations.
use universal_db.Base.{
  ℕ, zero, suc, ◌≡◌, refl, not, ◌&&◌, ◌||◌, none, [], ◌∷◌, arith, ltb, if◌then◌else◌,
}
use universal_db.Base.Eq.{nat_eq, contains}
use universal_db.Base.Assoc.{find, has}
use universal_db.Base.Result.{ok}
use universal_db.Proto.Paxos.{PaxosLogEntry, reconfig_finished, entry_content_case}
use universal_db.Proto.Sync.{SyncRequest, SyncResponse}
use universal_db.Paxos.Log.{PaxosLog, invoke, invoke_from}
use universal_db.Paxos.Log.Invariant.{IsValid}
use universal_db.Server.LogSyncer.{build_sync_request, build_sync_response, handle_sync_response}
use universal_db.Server.LogSyncer.Request.{covered, StartsAscend, build_sync_request-covers}
use universal_db.Server.LogSyncer.Response.{given, build_sync_response_lem}
use universal_db.Server.LogSyncer.Round.{Gained, joined, sync_round}
use universal_db.Paxos.Log.Delivery.{Replays}
use universal_db.Paxos.Config.{PaxosConfigManager, on_reconfig_started, reconfigure, urls_of}
use universal_db.Proto.Paxos.{reconfig_started}

abbrev start : PaxosConfigManager
start = record { config_timeline = record { index = 0; slaves = [] } ∷ [] }

abbrev entry : PaxosLogEntry
entry = reconfig_started ((50 ∷ []) ∷ [])

abbrev node : PaxosLog PaxosConfigManager
node = record {
  log = (1, entry) ∷ [];
  available_indices = 0 ∷ 2 ∷ [];
  callbacks = (6, on_reconfig_started (λ m. m) (λ m _. m) ∷ []) ∷ [];
}

abbrev peer : PaxosLog PaxosConfigManager
peer = record node { log = (0, reconfig_finished) ∷ (1, entry) ∷ []; available_indices = 2 ∷ [] }

node-agree : (j : ℕ) → has j node.log ≡ (ltb j 2 && not (contains j (0 ∷ [])))
unfolding find
node-agree j = ground arith

peer-agree : (j : ℕ) → has j peer.log ≡ (ltb j 2 && not (contains j []))
unfolding find
peer-agree j = ground arith

abbrev node-IsValid : IsValid node
node-IsValid = record {
  init = 0 ∷ [];
  top = 2;
  shape = refl;
  ascending = (omega arith, tt);
  below = (omega arith, tt);
  agree = node-agree;
}

abbrev peer-IsValid : IsValid peer
peer-IsValid = record {
  init = [];
  top = 2;
  shape = refl;
  ascending = tt;
  below = tt;
  agree = peer-agree;
}

node-Replays : Replays start (joined node peer)
unfolding invoke_from invoke find entry_content_case on_reconfig_started reconfigure urls_of
node-Replays zero there = (_, refl)
node-Replays (suc zero) there = (_, refl)
node-Replays (suc (suc zero)) there = (_, refl)
node-Replays (suc (suc (suc n))) there = absurd (ground (arith, there 2 (omega arith)))

build_sync_request-covers_example :
    (request : SyncRequest) × (build_sync_request (0 ∷ 2 ∷ []) ≡ ok request)
    × StartsAscend 0 request.missing_indices
    × ((j : ℕ)
        → (covered j request.missing_indices || ltb request.last_index j) ≡ not (has j node.log))
build_sync_request-covers_example = build_sync_request-covers node node-IsValid (omega arith)

abbrev request : SyncRequest
request = record { missing_indices = record { start = 0; end = 0 } ∷ []; last_index = 2 }

build_sync_response_lem_example :
    (response : SyncResponse) × (build_sync_response peer request ≡ ok response)
    × ((j : ℕ)
        → given j response.missing_entries ≡ (
            if (covered j request.missing_indices || ltb 2 j) && ltb j 2
            then find j peer.log
            else none))
build_sync_response_lem_example =
    build_sync_response_lem peer peer-IsValid request (omega arith) (omega arith, tt)

sync_round_example :
    (q : SyncRequest) × (response : SyncResponse) × (r : PaxosLog PaxosConfigManager
      × PaxosConfigManager)
    × (build_sync_request (0 ∷ 2 ∷ []) ≡ ok q)
    × (build_sync_response peer q ≡ ok response)
    × (handle_sync_response response node start ≡ ok r)
    × Gained (λ j. if ltb j 2 then find j peer.log else none) node r.0 start r.1
unfolding invoke_from
sync_round_example =
    sync_round node peer start start node-IsValid peer-IsValid (omega arith) (omega arith) refl
      node-Replays
