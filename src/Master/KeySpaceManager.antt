-- ===== src/Master/KeySpaceManager.antt =====
-- KeySpaceManager of src/master/KeySpaceManager.h and KeySpaceManager.cc: the ranges of the slave
-- groups, which change in two entries of the masters' log: a selection, and a commit of it.
pub mod Phases
pub mod FindKey
mod Tests
use universal_db.Base.{
  ℕ, ◌+◌, Bool, true, false, Option, none, some, List, [], ◌∷◌, ◌++◌, map, inc32, if◌then◌else◌,
}
use universal_db.Base.Eq.{◌==◌, nat_eq}
use universal_db.Base.Bytes.{Bytes, bytes_eq}
use universal_db.Base.Assoc.{find, insert, assign}
use universal_db.Base.Result.{Result, ok, thrown, assertion, undefined, assert, ◌>>=◌, ◌>>◌}
use universal_db.Net.EndpointId.{EndpointId}
use universal_db.Net.Sent.{Sent, broadcast}
use universal_db.Proto.Paxos.{PaxosLogEntry, PaxosMessage, NewKeySpaceSelected, KeySpaceCommit}
use universal_db.Proto.Paxos
use universal_db.Proto.Client.{FindKeyRangeRequest, FindKeyRangeResponse, unset, error}
use universal_db.Proto.Wrapper.{KeySpaceSelection, MasterMessage, key_space_selected}
use universal_db.Async.Queue.{Wait, terminate, again}
use universal_db.Paxos.Config.{PaxosConfigManager}
use universal_db.Paxos.Log.{PaxosLog, Callback, add_callback}
use universal_db.Paxos.Multi.{MultiPaxosHandler}
use universal_db.Paxos.Multi
use universal_db.Paxos.Single.{SinglePaxosHandler}
use universal_db.Server.KeySpaceRange.{KeySpaceRange, convert, build_range, within_range}
use universal_db.Master.GroupConfigManager.{
  SlaveGroupId, GroupConfigManager, get_endpoints, get_group_id,
}

abbrev pub retry_limit : ℕ
retry_limit = 3

-- The times to wait are all 100.
abbrev pub wait_time : ℕ
wait_time = 100

-- The variant of KeySpace and NewKeySpace.
pub data GroupRanges : Type 0 where
  key_space : List KeySpaceRange → ℕ → GroupRanges
  new_key_space : List KeySpaceRange → List KeySpaceRange → ℕ → GroupRanges

-- What the callbacks work on, with the messages to the slaves.
pub record MasterState : Type 0 where
  pub paxos_config_manager : PaxosConfigManager
  pub slave_group_ranges : List (SlaveGroupId × GroupRanges)
  pub config_manager : GroupConfigManager
  pub to_slaves : List (Sent MasterMessage)

-- entry.key_space_selected() and entry.key_space_commit() of another kind of entry.
unfoldable pub selected_of : PaxosLogEntry → NewKeySpaceSelected
selected_of (Paxos.key_space_selected m) = m
selected_of _ = record { slave_group_id = []; new_ranges = []; generation = 0 }

unfoldable pub commit_of : PaxosLogEntry → KeySpaceCommit
commit_of (Paxos.key_space_commit m) = m
commit_of _ = record { slave_group_id = []; generation = 0 }

unfoldable pub build_new_key_space_selected_message : List KeySpaceRange → ℕ → MasterMessage
build_new_key_space_selected_message new_ranges generation =
    key_space_selected (record { new_ranges = map build_range new_ranges; generation = generation })

unfoldable pub build_new_key_space_selected_paxos :
    SlaveGroupId → List KeySpaceRange → ℕ → NewKeySpaceSelected
build_new_key_space_selected_paxos group_id new_ranges generation = record {
  slave_group_id = group_id;
  new_ranges = map build_range new_ranges;
  generation = generation;
}

-- The message goes to `endpoints[0]`, which is undefined for a group without slaves.
unfoldable pub announce_to :
    List EndpointId → List KeySpaceRange → ℕ → MasterState → Result MasterState
unfolding build_new_key_space_selected_message
announce_to [] new_ranges generation s = thrown undefined
announce_to (first ∷ _) new_ranges generation s = ok (record s {
  to_slaves =
      s.to_slaves
      ++ broadcast (first ∷ []) (build_new_key_space_selected_message new_ranges generation) ∷ [];
})

unfoldable pub announce : SlaveGroupId → List KeySpaceRange → ℕ → MasterState → Result MasterState
unfolding announce_to
announce group_id new_ranges generation s =
    let (endpoints, configs) = get_endpoints group_id s.config_manager in
    announce_to endpoints new_ranges generation (record s { config_manager = configs })

-- The callback on a NewKeySpaceSelected entry.
unfoldable pub on_key_space_selected : Callback MasterState
unfolding selected_of announce
on_key_space_selected index entry s =
    let m = selected_of entry in
    let new_ranges = map convert m.new_ranges in
    elim (find m.slave_group_id s.slave_group_ranges) [
      | none ↦ thrown assertion
      | some (new_key_space _ _ _) ↦ thrown assertion
      | some (key_space ranges generation) ↦
          assert (inc32 generation == m.generation)
          >> announce m.slave_group_id new_ranges m.generation (record s {
            slave_group_ranges =
                assign m.slave_group_id (new_key_space ranges new_ranges m.generation)
                  s.slave_group_ranges;
          })
    ]

-- The callback on a KeySpaceCommit entry.
unfoldable pub on_key_space_commit : Callback MasterState
unfolding commit_of
on_key_space_commit index entry s =
    let m = commit_of entry in
    elim (find m.slave_group_id s.slave_group_ranges) [
      | none ↦ thrown assertion
      | some (key_space _ _) ↦ thrown assertion
      | some (new_key_space ranges new_ranges generation) ↦
          assert (generation == m.generation)
          >> ok (record s {
            slave_group_ranges =
                assign m.slave_group_id (key_space new_ranges generation) s.slave_group_ranges;
          })
    ]

-- The constructor: 1 and 2 are kKeySpaceSelected and kKeySpaceCommit.
unfoldable pub register : PaxosLog MasterState → PaxosLog MasterState
register l = add_callback 2 on_key_space_commit (add_callback 1 on_key_space_selected l)

unfoldable pub set_first_config : SlaveGroupId → MasterState → MasterState
set_first_config group_id s = record s {
  slave_group_ranges = insert group_id (key_space [] 0) s.slave_group_ranges;
}
