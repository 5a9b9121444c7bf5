-- ===== src/Master/KeySpaceManager/Phases.antt =====
-- The two phases of a change of the key space of a group (src/master/KeySpaceManager.cc).
use universal_db.Base.{ℕ, ◌≡◌, some, List, inc32, if◌then◌else◌}
use universal_db.Base.Eq.{◌==◌, nat_eq}
use universal_db.Base.Bytes.{bytes_eq}
use universal_db.Base.Assoc.{find}
use universal_db.Net.EndpointId.{EndpointId}
use universal_db.Proto.Paxos.{PaxosLogEntry, NewKeySpaceSelected}
use universal_db.Proto.Paxos
use universal_db.Server.KeySpaceRange.{KeySpaceRange}
use universal_db.Master.GroupConfigManager.{SlaveGroupId}
use universal_db.Master.KeySpaceManager.{
  new_key_space, MasterState, build_new_key_space_selected_paxos,
}

module _ (group_id : SlaveGroupId) (new_ranges : List KeySpaceRange) (generation : ℕ) where
  abbrev pub selection : PaxosLogEntry
  selection =
      Paxos.key_space_selected (build_new_key_space_selected_paxos group_id new_ranges generation)

  abbrev pub commit : PaxosLogEntry
  commit = Paxos.key_space_commit (record { slave_group_id = group_id; generation = generation })

  -- The group is in the second phase, and the other groups are as they were.
  abbrev pub Selected : List KeySpaceRange → ℕ → MasterState → MasterState → Type 0
  Selected ranges old s s' =
      (generation ≡ inc32 old)
      × ((g : SlaveGroupId)
          → find g s'.slave_group_ranges ≡ (
              if group_id == g
              then some (new_key_space ranges new_ranges generation)
              else find g s.slave_group_ranges))
