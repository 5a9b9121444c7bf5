-- ===== src/Master/DataMaster/Tracked.antt =====
-- A master with its one group: what its tasks (src/master/KeySpaceManager.cc) find in its state.
use universal_db.Base.{
  ◌⊎◌, ℕ, ◌≡◌, refl, true, false, none, some, List, [], ◌∷◌, arith, Bool-cases, inl, inr,
}
use universal_db.Base.Eq.{◌==◌, nat_eq, contains}
use universal_db.Base.Bytes.{bytes_eq, bytes_beq_iff}
use universal_db.Base.Assoc.{find}
use universal_db.Base.Result.{Ensures}
use universal_db.Net.EndpointId.{EndpointId, endpoint_eq}
use universal_db.Net.Sent.{Sent}
use universal_db.Proto.Client.{FindKeyRangeRequest}
use universal_db.Proto.Wrapper.{MasterMessage}
use universal_db.Paxos.Config.{PaxosConfigManager}
use universal_db.Paxos.Log.{PaxosLog}
use universal_db.Paxos.Multi.Placed.{AllPlaced}
use universal_db.Paxos.Multi.Shadowed.{IsShadowed}
use universal_db.Server.KeySpaceRange.{KeySpaceRange}
use universal_db.Master.GroupConfigManager
use universal_db.Master.GroupConfigManager.{
  SlaveGroupId, get_endpoints, get_group_id, group_of, slaves_of,
}
use universal_db.Master.KeySpaceManager.{
  GroupRanges, key_space, new_key_space, MasterState, announce, announce_to,
}
use universal_db.Master.KeySpaceManager.FindKey.{
  MasterNode, any_within, scan, not_found, assigned, pending,
}
use universal_db.Master.DataMaster.{group_id, new_state, master_log}
use universal_db.Master.DataMaster.Groups.{one_group, IsAlike}

-- The log is well formed, and the state differs from what the callbacks make of its contiguous
-- entries by what was announced alone.
abbrev pub IsTracked :
    List EndpointId → List EndpointId → PaxosLog MasterState → MasterState → Type 0
IsTracked slaves masters =
    IsShadowed (IsAlike group_id slaves) master_log.callbacks (new_state slaves masters)

abbrev pub NodeKept : List EndpointId → List EndpointId → MasterNode → Type 0
NodeKept slaves masters n = AllPlaced n.multi × IsTracked slaves masters n.log n.state

-- An announcement to the group changes nothing else.
pub announced-IsAlike :
    (group : SlaveGroupId) (slaves : List EndpointId) (new_ranges : List KeySpaceRange)
    (generation : ℕ) (configs : PaxosConfigManager) (ranges : GroupRanges)
    (x x' : List (Sent MasterMessage))
    → Ensures
        (λ s. IsAlike group slaves s (one_group group slaves configs ranges x'))
        (announce group new_ranges generation (one_group group slaves configs ranges x))
unfolding announce announce_to get_endpoints find slaves_of
announced-IsAlike group slaves new_ranges generation configs ranges x x' =
    let here : (group == group) ≡ true = (bytes_beq_iff group group).1 refl in
    rw (here, announce, get_endpoints, find) (to_group slaves refl)
  where
    to_group :
        (endpoints : List EndpointId)
        → slaves ≡ endpoints
        → Ensures
            (λ s. IsAlike group slaves s (one_group group slaves configs ranges x'))
            (announce_to endpoints new_ranges generation (one_group group slaves configs ranges x))
    to_group [] e = tt
    to_group (first ∷ more) e = record {
      configs = configs;
      ranges = ranges;
      announced = _;
      announced' = x';
      first = refl;
      second = refl;
    }

-- The one group is the one that a scan finds.
pub scan_one :
    (m : FindKeyRangeRequest) (group : SlaveGroupId) (ranges : GroupRanges)
    → (scan m ((group, ranges) ∷ []) ≡ not_found)
      ⊎ (scan m ((group, ranges) ∷ []) ≡ assigned group)
      ⊎ ((new_ranges : List KeySpaceRange) × (generation : ℕ) × (scan m ((group, ranges) ∷ [])
            ≡ pending group new_ranges generation))
unfolding scan
scan_one m group (key_space ranges generation) = elim (Bool-cases (any_within m ranges)) [
  | inl within ↦ inr (inl (ground (arith, within)))
  | inr without ↦ inl (ground (arith, without))
]
scan_one m group (new_key_space old ranges generation) = elim (Bool-cases (any_within m ranges)) [
  | inl within ↦ inr (inr (ranges, generation, ground (arith, within)))
  | inr without ↦ inl (ground (arith, without))
]

pub no_group :
    (endpoint : EndpointId) (slaves : List EndpointId)
    → contains endpoint slaves ≡ false
    → group_of endpoint ((group_id, GroupConfigManager.config slaves 0) ∷ []) ≡ none
unfolding group_of slaves_of
no_group endpoint slaves other = ground (arith, other)

pub its_group :
    (endpoint : EndpointId) (slaves : List EndpointId)
    → contains endpoint slaves ≡ true
    → group_of endpoint ((group_id, GroupConfigManager.config slaves 0) ∷ []) ≡ some group_id
unfolding group_of slaves_of
its_group endpoint slaves member = ground (arith, member)

pub at_group : (ranges : GroupRanges) → find group_id ((group_id, ranges) ∷ []) ≡ some ranges
unfolding find
at_group ranges = ground (arith, (bytes_beq_iff group_id group_id).1 refl)
