-- ===== src/Server/HeartbeatTracker/Tests.antt =====
-- The theorems on the tracker, at two peers.
use universal_db.Base.{◌≡◌, refl, true, List, [], ◌∷◌, arith}
use universal_db.Base.Bytes.{bytes_beq, bytes_lt}
use universal_db.Net.EndpointId.{EndpointId, endpoint_lt}
use universal_db.Server.HeartbeatTracker.{
  Counts, handle_heartbeat, alive_endpoints, leader_endpoint_id,
}
use universal_db.Server.HeartbeatTracker.Sorted.{IsSorted}
use universal_db.Server.HeartbeatTracker.Counts.{has_ip}
use universal_db.Server.HeartbeatTracker.Age.{
  Event, period, heartbeat, asked, run, periods, alive-eq-recent,
}
use universal_db.Server.HeartbeatTracker.Leader.{
  LeaderOf, address, leader_endpoint_id-LeaderOf, leaders_agree,
}

abbrev one : EndpointId
one = record { ip_string = 49 ∷ []; port = 80 }

abbrev two : EndpointId
two = record { ip_string = 50 ∷ []; port = 80 }

abbrev both : Counts
both = (one, 3) ∷ (two, 0) ∷ []

both-IsSorted : IsSorted both
unfolding endpoint_lt bytes_lt
both-IsSorted = ((refl, tt), (tt, tt))

abbrev events : List Event
events = period ∷ asked ∷ heartbeat two ∷ period ∷ []

alive-eq-recent_example :
    has_ip one (alive_endpoints (run events (handle_heartbeat one both))).0 ≡ true
unfolding periods bytes_beq
alive-eq-recent_example = alive-eq-recent events one both both-IsSorted (refl, tt) (omega arith)

leader_endpoint_id-LeaderOf_example : LeaderOf (alive_endpoints both).0 (leader_endpoint_id both).0
leader_endpoint_id-LeaderOf_example = leader_endpoint_id-LeaderOf both both-IsSorted

-- The other node saw the peers through other ports.
abbrev others : Counts
others =
    (record { ip_string = 49 ∷ []; port = 81 }, 1)
    ∷ (record { ip_string = 50 ∷ []; port = 80 }, 2)
    ∷ []

others-IsSorted : IsSorted others
unfolding endpoint_lt bytes_lt
others-IsSorted = ((refl, tt), (tt, tt))

same_alive :
    (j : EndpointId) → has_ip j (alive_endpoints both).0 ≡ has_ip j (alive_endpoints others).0
unfolding alive_endpoints
same_alive j = refl

leaders_agree_example : address (leader_endpoint_id both).0 ≡ address (leader_endpoint_id others).0
leaders_agree_example = leaders_agree both others both-IsSorted others-IsSorted same_alive
