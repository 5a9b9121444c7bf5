-- ===== src/Server/HeartbeatTracker.antt =====
-- HeartbeatTracker of src/server/HeartbeatTracker.h and HeartbeatTracker.cc: for each peer the
-- periods since its last heartbeat. The std::map is a list in the order of `endpoint_lt`; two keys
-- are the same to it when neither is before the other.
pub mod Sorted
pub mod Counts
pub mod Age
pub mod Leader
mod Tests
use universal_db.Base.{
  ℕ, Bool, true, false, Option, none, some, List, [], ◌∷◌, map, leb, inc32, if◌then◌else◌,
}
use universal_db.Net.EndpointId.{EndpointId, endpoint_lt}

abbrev pub Counts : Type 0
Counts = List (EndpointId × ℕ)

abbrev pub heartbeat_failure_count : ℕ
heartbeat_failure_count = 4

-- heartbeat_count.find(endpoint_id)
unfoldable pub find_count : EndpointId → Counts → Option ℕ
find_count e [] = none
find_count e ((d, c) ∷ m) =
    let rest = find_count e m in
    if endpoint_lt d e then rest else if endpoint_lt e d then none else some c

-- heartbeat_count.insert({endpoint_id, 0}), for a key that is not there
unfoldable pub insert_count : EndpointId → Counts → Counts
insert_count e [] = (e, 0) ∷ []
insert_count e ((d, c) ∷ m) =
    let rest = insert_count e m in if endpoint_lt d e then (d, c) ∷ rest else (e, 0) ∷ (d, c) ∷ m

-- `it->second = 0` at the key that is found
unfoldable pub reset_count : EndpointId → Counts → Counts
reset_count e [] = []
reset_count e ((d, c) ∷ m) =
    let rest = reset_count e m in
    if endpoint_lt d e then (d, c) ∷ rest else if endpoint_lt e d then (d, c) ∷ m else (d, 0) ∷ m

unfoldable pub increment_counts : Counts → Counts
increment_counts [] = []
increment_counts ((d, c) ∷ m) = (d, inc32 c) ∷ increment_counts m

unfoldable pub handle_heartbeat : EndpointId → Counts → Counts
unfolding find_count insert_count reset_count
handle_heartbeat e m = elim (find_count e m) [ none ↦ insert_count e m | some _ ↦ reset_count e m ]

-- The endpoints that are alive, and the map without the others.
unfoldable pub alive_endpoints : Counts → List EndpointId × Counts
alive_endpoints [] = ([], [])
alive_endpoints ((d, c) ∷ m) =
    let (endpoints, rest) = alive_endpoints m in
    if leb heartbeat_failure_count c then (endpoints, rest) else (d ∷ endpoints, (d, c) ∷ rest)

unfoldable pub leader_endpoint_id : Counts → Option EndpointId × Counts
unfolding alive_endpoints
leader_endpoint_id m =
    let (endpoints, rest) = alive_endpoints m in
    (elim endpoints [ [] ↦ none | first ∷ _ ↦ some first ], rest)
